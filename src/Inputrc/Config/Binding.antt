-- ===== src/Inputrc/Config/Binding.antt =====
-- What `Bind` changes (inputrc/config.go).
use readline.Base.{
  ◌≡◌, refl, Bool, Option, some, eqb, eqb→eq, arith, Bool-cases, inl, inr, if◌then◌else◌,
}
use readline.Inputrc.Reader.{Text}
use readline.Inputrc.Config.{
  Map, lookup, assign, Bind, Config, config_bind, keymap_binds, config_get,
}

pub lookup-assign {ℓ} :
    {A : Type ℓ} (m : Map A) (key key' : Text) (x : A)
    → lookup (assign m key x) key' ≡ (if eqb key key' then some x else lookup m key')
unfolding lookup assign
lookup-assign m key key' x = refl

-- The entry of a key map for a sequence.
unfoldable pub bound_to : {E : Type 0} → Config E → Text → Text → Option Bind
unfolding keymap_binds lookup
bound_to cfg keymap sequence = lookup (keymap_binds cfg keymap) sequence

-- After `Bind` the sequence is bound in the key map, every other sequence and every other key map are
-- bound as before, and no variable is changed.
bound_to-config_bind :
    {E : Type 0} (cfg : Config E) (keymap sequence action : Text) (macro : Bool)
    (keymap' sequence' : Text)
    → (bound_to (config_bind cfg keymap sequence action macro) keymap' sequence' ≡ (
        if eqb keymap keymap'
        then if eqb sequence sequence'
          then some (record { action = action; macro = macro })
          else bound_to cfg keymap' sequence'
        else bound_to cfg keymap' sequence'))
      × (config_get (config_bind cfg keymap sequence action macro) sequence'
          ≡ config_get cfg sequence')
unfolding bound_to config_bind keymap_binds lookup assign config_get
bound_to-config_bind cfg keymap sequence action macro keymap' sequence' =
    elim (Bool-cases (eqb keymap keymap')) [
      | inl k ↦ let same : keymap ≡ keymap' = eqb→eq keymap keymap' k in (ground arith, refl)
      | inr k ↦ (ground arith, refl)
    ]
