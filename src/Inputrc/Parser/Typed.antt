-- ===== src/Inputrc/Parser/Typed.antt =====
-- The values that a parse may give to variables (inputrc/parse.go, doSet).
use readline.Base.{
  ◌≡◌, ◌≢◌, refl, ap, ◌∙◌, true, false, ◌||◌, Option, none, some, eqb, arith, Bool-cases, inl, inr,
  ◌⊎◌, map,
}
use readline.Base.Text.{codes}
use readline.Core.Iterations.{atoi}
use readline.Inputrc.Reader.{Text, Value, flag, text, number, other, File, Handler, Parser}
use readline.Inputrc.Parser.{Outside, Result, answer, set_active, set_typed, set_new}
use readline.Inputrc.Parser.Types.{IsStore}
use readline.Inputrc.Parser.Related.{IsKept}

-- Every variable that is set has one of the three types.
unfoldable pub AllTyped : {S E : Type 0} → Handler S E → S → Type 0
AllTyped h s = (name : Text) → h.get_var s name ≢ some other

module _ {S E : Type 0} (o : Outside) (h : Handler S E) (store : IsStore h) where
  set_var-AllTyped :
      (s s' : S) (name : Text) (v : Value)
      → s' ≡ (h.set_var s name v).0
      → v ≢ other
      → AllTyped h s
      → AllTyped h s'
  unfolding AllTyped
  set_var-AllTyped s s' name v e n t name' = elim (Bool-cases (eqb name name')) [
    | inl b ↦ rw (e, store.get-set s name name' v, b) (λ k. n (ground arith))
    | inr b ↦ rw (e, store.get-set s name name' v, b) (t name')
  ]

  same-AllTyped :
      (s s' : S)
      → ((name : Text) → h.get_var s' name ≡ h.get_var s name)
      → AllTyped h s
      → AllTyped h s'
  unfolding AllTyped
  same-AllTyped s s' e t name = rw (e name) (t name)

  answer-at : (p : Parser E) (a : S × Option E) → (answer o h p a).0 ≡ a.0
  unfolding answer
  answer-at p (s, none) = refl
  answer-at p (s, some e) = refl

  -- A set leaves the state as it is, or sets a value of one of the three types.
  abbrev Sets : S → Text → S → Type 0
  Sets s name s' = (s' ≡ s) ⊎ ((v : Value) × (v ≢ other) × (s' ≡ (h.set_var s name v).0))

  set_typed-Sets :
      (s : S) (p : Parser E) (name value : Text) (old : Value) (r : Result o h)
      → set_typed o h s p name value old ≡ some r
      → Sets s name r.0
  unfolding set_typed
  set_typed-Sets s p name value (flag b) r e =
      let v = flag (eqb (map o.unicode.to_lower value) (codes "on") || eqb value (codes "1")) in
      let state = answer-at p (h.set_var s name v) in inr (v, (λ k. cc), ground arith)
  set_typed-Sets s p name value (text x) r e =
      let state = answer-at p (h.set_var s name (text value)) in
      inr (text value, (λ k. cc), ground arith)
  set_typed-Sets s p name value (number i) r e =
      let n = (atoi value).0 in
      let state = answer-at p (h.set_var s name (number n)) in
      let ends : (r.0 ≡ s) ⊎ (r.0 ≡ (h.set_var s name (number n)).0) = ground arith in
      elim ends [ inl k ↦ inl k | inr k ↦ inr (number n, (λ k'. cc), k) ]
  set_typed-Sets s p name value other r e = ground arith

  set_new-Sets :
      (s : S) (p : Parser E) (name value : Text) (r : Result o h)
      → set_new o h s p name value ≡ some r
      → Sets s name r.0
  unfolding set_new
  set_new-Sets s p name value r e =
      let n = number (atoi value).0 in
      let numbers = answer-at p (h.set_var s name n) in
      let off = answer-at p (h.set_var s name (flag false)) in
      let on = answer-at p (h.set_var s name (flag true)) in
      let texts = answer-at p (h.set_var s name (text value)) in
      let ends : (r.0 ≡ (h.set_var s name n).0)
          ⊎ ((r.0 ≡ (h.set_var s name (flag false)).0)
              ⊎ ((r.0 ≡ (h.set_var s name (flag true)).0)
                  ⊎ (r.0 ≡ (h.set_var s name (text value)).0))) =
        ground arith in
      elim ends [
        | inl k ↦ inr (n, (λ k'. cc), k)
        | inr (inl k) ↦ inr (flag false, (λ k'. cc), k)
        | inr (inr (inl k)) ↦ inr (flag true, (λ k'. cc), k)
        | inr (inr (inr k)) ↦ inr (text value, (λ k'. cc), k)
      ]

  known-Sets :
      (s : S) (p : Parser E) (name value : Text) (r : Result o h) (old : Option Value)
      → elim old as (λ _. Option (Result o h)) [
        | some v ↦ set_typed o h s p name value v
        | none ↦ set_new o h s p name value
      ]
        ≡ some r
      → Sets s name r.0
  known-Sets s p name value r none e = set_new-Sets s p name value r e
  known-Sets s p name value r (some v) e = set_typed-Sets s p name value v r e

  set_active-Sets :
      (s : S) (p : Parser E) (name value : Text) (r : Result o h)
      → set_active o h s p name value ≡ some r
      → Sets s name r.0
  unfolding set_active
  set_active-Sets s p name value r e =
      let mode = answer-at p (h.set_var s name (text value)) in
      let known = elim (h.get_var s name) as (λ _. Option (Result o h)) [
        | some v ↦ set_typed o h s p name value v
        | none ↦ set_new o h s p name value
      ] in
      let ends : (r.0 ≡ s) ⊎ ((r.0 ≡ (h.set_var s name (text value)).0) ⊎ (known ≡ some r)) =
        ground arith in
      elim ends [
        | inl k ↦ inl k
        | inr (inl k) ↦ inr (text value, (λ k'. cc), k)
        | inr (inr k) ↦ known-Sets s p name value r (h.get_var s name) k
      ]

  -- All variables have one of the three types, and the handler finds the given files.
  pub record IsReady (files : Text → File E) (s : S) : Type 0 where
    pub typed : AllTyped h s
    pub finds : (path : Text) → h.read_file s path ≡ files path

  keeps_ready :
      (files : Text → File E) (s s' : S)
      → ((name : Text) → h.get_var s' name ≡ h.get_var s name)
      → ((path : Text) → h.read_file s' path ≡ h.read_file s path)
      → IsReady files s
      → IsReady files s'
  keeps_ready files s s' e f r = record {
    typed = same-AllTyped s s' e r.typed;
    finds = λ path. f path ∙ r.finds path;
  }

  Sets-IsReady :
      (files : Text → File E) (s s' : S) (name : Text)
      → Sets s name s'
      → IsReady files s
      → IsReady files s'
  Sets-IsReady files s s' name (inl k) r =
      keeps_ready files s s' (λ name'. ap (λ x. h.get_var x name') k)
        (λ path. ap (λ x. h.read_file x path) k) r
  Sets-IsReady files s s' name (inr (v, n, k)) r = record {
    typed = set_var-AllTyped s s' name v k n r.typed;
    finds = λ path. rw (k, store.read-set s name path v) (r.finds path);
  }

  pub IsReady-IsKept :
      (files : Text → File E) → IsKept o h (λ s s'. IsReady files s → IsReady files s')
  IsReady-IsKept files = record {
    same = λ s t. t;
    chain = λ s s' s'' f g t. g (f t);
    bind = λ s keymap sequence action macro.
        keeps_ready files s _ (λ name. store.get-bind s keymap sequence action name macro)
          (λ path. store.read-bind s keymap sequence action path macro);
    on_construct = λ s keyword val.
        keeps_ready files s _ (λ name. store.get-construct s keyword val name)
          (λ path. store.read-construct s keyword val path);
    set_active =
        λ s p name value r e. Sets-IsReady files s r.0 name (set_active-Sets s p name value r e);
  }
