-- ===== src/Inputrc/Parser/Types.antt =====
-- The types of variables (inputrc/parse.go, doSet).
use readline.Base.{
  ℕ, ◌≡◌, refl, sym, ap, Bool, ◌||◌, true, false, Option, none, some, eqb, eqb→eq, arith,
  Bool-cases, inl, inr, ◌⊎◌, if◌then◌else◌, map,
}
use readline.Base.Text.{codes}
use readline.Core.Iterations.{atoi}
use readline.Inputrc.Reader.{Text, Value, flag, text, number, other, Handler, Parser}
use readline.Inputrc.Parser.{Outside, Input, Result, answer, set_active, set_typed, set_new, parse}
use readline.Inputrc.Parser.Related.{IsKept, parse-kept}

pub data Kind : Type 0 where
  flag_kind : Kind
  text_kind : Kind
  number_kind : Kind
  other_kind : Kind

unfoldable pub kind_of : Value → Kind
kind_of (flag b) = flag_kind
kind_of (text t) = text_kind
kind_of (number n) = number_kind
kind_of other = other_kind

unfoldable pub HasKind : Option Value → Kind → Type 0
HasKind none k = ⊥
HasKind (some v) k = kind_of v ≡ k

-- What a configuration promises of its variables, and of the files that it finds.
pub record IsStore {S E : Type 0} (h : Handler S E) : Type 0 where
  pub get-set :
      (s : S) (name name' : Text) (v : Value)
      → h.get_var (h.set_var s name v).0 name'
        ≡ (if eqb name name' then some v else h.get_var s name')
  pub get-bind :
      (s : S) (keymap sequence action name : Text) (macro : Bool)
      → h.get_var (h.bind s keymap sequence action macro).0 name ≡ h.get_var s name
  pub get-construct :
      (s : S) (keyword val name : Text)
      → h.get_var (h.on_construct s keyword val).0 name ≡ h.get_var s name
  pub read-set :
      (s : S) (name path : Text) (v : Value)
      → h.read_file (h.set_var s name v).0 path ≡ h.read_file s path
  pub read-bind :
      (s : S) (keymap sequence action path : Text) (macro : Bool)
      → h.read_file (h.bind s keymap sequence action macro).0 path ≡ h.read_file s path
  pub read-construct :
      (s : S) (keyword val path : Text)
      → h.read_file (h.on_construct s keyword val).0 path ≡ h.read_file s path

module _ {S E : Type 0} (o : Outside) (h : Handler S E) (store : IsStore h) where
  -- The variables of the first state have the same types in the second one. `editing-mode` is a text.
  unfoldable pub KeepsKinds : S → S → Type 0
  KeepsKinds s s' =
      (name : Text) (k : Kind)
      → (eqb name (codes "editing-mode") ≡ true → k ≡ text_kind)
      → HasKind (h.get_var s name) k
      → HasKind (h.get_var s' name) k

  same_vars : (s s' : S) → ((name : Text) → h.get_var s' name ≡ h.get_var s name) → KeepsKinds s s'
  unfolding KeepsKinds
  same_vars s s' e name k m t = rw (e name) t

  set_var-KeepsKinds :
      (s s' : S) (name : Text) (v : Value)
      → s' ≡ (h.set_var s name v).0
      → ((k : Kind)
          → (eqb name (codes "editing-mode") ≡ true → k ≡ text_kind)
          → HasKind (h.get_var s name) k
          → kind_of v ≡ k)
      → KeepsKinds s s'
  unfolding KeepsKinds HasKind
  set_var-KeepsKinds s s' name v e f name' k m t = elim (Bool-cases (eqb name name')) [
    | inl b ↦
        let same : name ≡ name' = eqb→eq name name' b in
        rw (e, store.get-set s name name' v, b) (f k (rw same m) (rw same t))
    | inr b ↦ rw (e, store.get-set s name name' v, b) t
  ]

  answer-of : (p : Parser E) (a : S × Option E) → (answer o h p a).0 ≡ a.0
  unfolding answer
  answer-of p (s, none) = refl
  answer-of p (s, some e) = refl

  set_typed-KeepsKinds :
      (s : S) (p : Parser E) (name value : Text) (old : Value) (r : Result o h)
      → h.get_var s name ≡ some old
      → set_typed o h s p name value old ≡ some r
      → KeepsKinds s r.0
  unfolding set_typed HasKind kind_of
  set_typed-KeepsKinds s p name value (flag b) r g e =
      let v = flag (eqb (map o.unicode.to_lower value) (codes "on") || eqb value (codes "1")) in
      let state = answer-of p (h.set_var s name v) in
      set_var-KeepsKinds s r.0 name v (ground arith) (λ k m t. rw g at t)
  set_typed-KeepsKinds s p name value (text x) r g e =
      let state = answer-of p (h.set_var s name (text value)) in
      set_var-KeepsKinds s r.0 name (text value) (ground arith) (λ k m t. rw g at t)
  set_typed-KeepsKinds s p name value (number i) r g e =
      let n = (atoi value).0 in
      let state = answer-of p (h.set_var s name (number n)) in
      let ends : (r.0 ≡ s) ⊎ (r.0 ≡ (h.set_var s name (number n)).0) = ground arith in
      elim ends [
        | inl k ↦ same_vars s r.0 (λ name'. ap (λ x. h.get_var x name') k)
        | inr k ↦ set_var-KeepsKinds s r.0 name (number n) k (λ k m t. rw g at t)
      ]
  set_typed-KeepsKinds s p name value other r g e = ground arith

  set_new-KeepsKinds :
      (s : S) (p : Parser E) (name value : Text) (r : Result o h)
      → h.get_var s name ≡ none
      → set_new o h s p name value ≡ some r
      → KeepsKinds s r.0
  unfolding set_new HasKind
  set_new-KeepsKinds s p name value r g e =
      let fresh = λ (v : Value) (k : r.0 ≡ (h.set_var s name v).0).
        set_var-KeepsKinds s r.0 name v k (λ k m t. absurd (rw g at t)) in
      let n = number (atoi value).0 in
      let numbers = answer-of p (h.set_var s name n) in
      let off = answer-of p (h.set_var s name (flag false)) in
      let on = answer-of p (h.set_var s name (flag true)) in
      let texts = answer-of p (h.set_var s name (text value)) in
      let ends : (r.0 ≡ (h.set_var s name n).0)
          ⊎ ((r.0 ≡ (h.set_var s name (flag false)).0)
              ⊎ ((r.0 ≡ (h.set_var s name (flag true)).0)
                  ⊎ (r.0 ≡ (h.set_var s name (text value)).0))) =
        ground arith in
      elim ends [
        | inl k ↦ fresh n k
        | inr (inl k) ↦ fresh (flag false) k
        | inr (inr (inl k)) ↦ fresh (flag true) k
        | inr (inr (inr k)) ↦ fresh (text value) k
      ]

  known-KeepsKinds :
      (s : S) (p : Parser E) (name value : Text) (r : Result o h) (old : Option Value)
      → h.get_var s name ≡ old
      → elim old as (λ _. Option (Result o h)) [
        | some v ↦ set_typed o h s p name value v
        | none ↦ set_new o h s p name value
      ]
        ≡ some r
      → KeepsKinds s r.0
  known-KeepsKinds s p name value r none g e = set_new-KeepsKinds s p name value r g e
  known-KeepsKinds s p name value r (some v) g e = set_typed-KeepsKinds s p name value v r g e

  set_active-KeepsKinds :
      (s : S) (p : Parser E) (name value : Text) (r : Result o h)
      → set_active o h s p name value ≡ some r
      → KeepsKinds s r.0
  unfolding set_active kind_of
  set_active-KeepsKinds s p name value r e =
      let mode = answer-of p (h.set_var s name (text value)) in
      let known = elim (h.get_var s name) as (λ _. Option (Result o h)) [
        | some v ↦ set_typed o h s p name value v
        | none ↦ set_new o h s p name value
      ] in
      let ends : (r.0 ≡ s)
          ⊎ (((eqb name (codes "editing-mode") ≡ true) × (r.0 ≡ (h.set_var s name (text value)).0))
              ⊎ (known ≡ some r)) =
        ground arith in
      elim ends [
        | inl k ↦ same_vars s r.0 (λ name'. ap (λ x. h.get_var x name') k)
        | inr (inl (b, k)) ↦ set_var-KeepsKinds s r.0 name (text value) k (λ k m t. sym (m b))
        | inr (inr k) ↦ known-KeepsKinds s p name value r (h.get_var s name) refl k
      ]

  KeepsKinds-IsKept : IsKept o h KeepsKinds
  unfolding KeepsKinds
  KeepsKinds-IsKept = record {
    same = λ s name k m t. t;
    chain = λ s s' s'' f g name k m t. g name k m (f name k m t);
    bind = λ s keymap sequence action macro.
        same_vars s _ (λ name. store.get-bind s keymap sequence action name macro);
    on_construct = λ s keyword val. same_vars s _ (λ name. store.get-construct s keyword val name);
    set_active = set_active-KeepsKinds;
  }

  -- No parse changes the type of a variable that is set before it, be it in the file itself or in one
  -- that it includes, if the handler stores variables as they are given to it, and if `editing-mode`,
  -- where it is set, is a text.
  pub parse-KeepsKinds :
      (depth : ℕ) (s : S) (p : Parser E) (input : Input) (r : Result o h)
      → parse o h depth s p input ≡ some r
      → KeepsKinds s r.0
  parse-KeepsKinds depth s p input r e =
      parse-kept o h KeepsKinds KeepsKinds-IsKept depth s p input r e
