-- ===== src/Inputrc/Parser/Goes.antt =====
-- Results of a call, after which there is still a condition, and those of a set (inputrc/parse.go).
use readline.Base.{
  ◌≤◌, ◌≡◌, ◌≢◌, refl, sym, ap, Bool, true, false, Option, none, some, List, ◌∷◌, length, arith,
  if◌then◌else◌,
}
use readline.Inputrc.Reader.{Text, Value, flag, text, number, other, Handler, Parser}
use readline.Inputrc.Parser.{Outside, Result, answer, set_active, set_typed, set_new}

pub one-le-length : (c : Bool) (conds : List Bool) → 1 ≤ length (c ∷ conds)
one-le-length c conds = omega arith

-- There is a condition.
abbrev pub HasConds : {E : Type 0} → Parser E → Type 0
HasConds p = 1 ≤ length p.conds

module _ {S E : Type 0} (o : Outside) (h : Handler S E) where
  -- A result, after which there is still a condition.
  pub record Goes (r : Option (Result o h)) : Type 0 where
    pub some_result : r ≢ none
    pub conds : (r' : Result o h) → r ≡ some r' → HasConds r'.1

  pub answer-HasConds : (p : Parser E) (a : S × Option E) → HasConds p → HasConds (answer o h p a).1
  unfolding answer
  answer-HasConds p (s, none) c = c
  answer-HasConds p (s, some e) c = c

  pub Goes-some : (r : Result o h) → HasConds r.1 → Goes (some r)
  Goes-some r c = record {
    some_result = λ e. cc;
    conds = λ r' e. let same : r ≡ r' = cc in rw (sym same) c;
  }

  pub Goes-answer : (p : Parser E) (a : S × Option E) → HasConds p → Goes (some (answer o h p a))
  Goes-answer p a c = Goes-some (answer o h p a) (answer-HasConds p a c)

  pub Goes-if : (b : Bool) (x y : Option (Result o h)) → Goes x → Goes y → Goes (if b then x else y)
  Goes-if true x y g k = g
  Goes-if false x y g k = k

  set_typed-Goes :
      (s : S) (p : Parser E) (name value : Text) (old : Value)
      → old ≢ other
      → HasConds p
      → Goes (set_typed o h s p name value old)
  unfolding set_typed
  set_typed-Goes s p name value (flag b) n c = Goes-answer p _ c
  set_typed-Goes s p name value (text t) n c = Goes-answer p _ c
  set_typed-Goes s p name value (number i) n c = Goes-if _ _ _ (Goes-some _ c) (Goes-answer p _ c)
  set_typed-Goes s p name value other n c = absurd (n refl)

  set_new-Goes :
      (s : S) (p : Parser E) (name value : Text) → HasConds p → Goes (set_new o h s p name value)
  unfolding set_new
  set_new-Goes s p name value c = search (Goes-if, Goes-answer p, c)

  set_known-Goes :
      (s : S) (p : Parser E) (name value : Text) (old : Option Value)
      → old ≢ some other
      → HasConds p
      → Goes (elim old as (λ _. Option (Result o h)) [
        | some v ↦ set_typed o h s p name value v
        | none ↦ set_new o h s p name value
      ])
  set_known-Goes s p name value none n c = set_new-Goes s p name value c
  set_known-Goes s p name value (some v) n c =
      set_typed-Goes s p name value v (λ e. n (ap some e)) c

  pub set_active-Goes :
      (s : S) (p : Parser E) (name value : Text)
      → h.get_var s name ≢ some other
      → HasConds p
      → Goes (set_active o h s p name value)
  unfolding set_active
  set_active-Goes s p name value typed c =
      let known = set_known-Goes s p name value (h.get_var s name) typed c in
      record {
        some_result = ground (arith, known.some_result);
        conds = λ r e.
            ground (arith, known.conds r, answer-HasConds p (h.set_var s name (text value)) c);
      }
