-- ===== src/Inputrc/Config.antt =====
-- Type `Config` (inputrc/config.go), which is the handler of a parse. A map is the list of its entries,
-- the newest first; those of a configuration are never nil, since the constructors make them. The
-- functions for constructs are parameters, which give their error; what else they do is left out.
pub mod Binding
pub mod Store
use readline.Base.{ℕ, Bool, true, false, Option, none, some, List, [], ◌∷◌, eqb, if◌then◌else◌}
use readline.Base.Int.{ℤ, pos}
use readline.Inputrc.Reader.{Text, Value, flag, text, number, other, File, not_exist, Handler}

abbrev pub Map {ℓ} : Type ℓ → Type ℓ
Map A = List (Text × A)

unfoldable pub lookup {ℓ} : {A : Type ℓ} → Map A → Text → Option A
lookup [] key = none
lookup ((key', x) ∷ m) key = if eqb key' key then some x else lookup m key

-- An assignment to a key.
unfoldable pub assign {ℓ} : {A : Type ℓ} → Map A → Text → A → Map A
assign m key x = (key, x) ∷ m

pub record Bind : Type 0 where
  pub action : Text
  pub macro : Bool

pub record Config (E : Type 0) : Type 0 where
  pub read_file_func : Option (Text → File E)
  pub vars : Map Value
  pub binds : Map (Map Bind)
  pub funcs : Map (Text → Text → Option E)

module _ {E : Type 0} where
  unfoldable pub new_config : Config E
  new_config = record { read_file_func = none; vars = []; binds = []; funcs = [] }

  unfoldable pub config_read_file : Config E → Text → File E
  config_read_file cfg name = elim cfg.read_file_func [ none ↦ not_exist | some f ↦ f name ]

  unfoldable pub config_do : Config E → Text → Text → Option E
  unfolding lookup
  config_do cfg name value = elim (lookup cfg.funcs name) [
    | some f ↦ f name value
    | none ↦ elim (lookup cfg.funcs []) [ some f ↦ f name value | none ↦ none ]
  ]

  unfoldable pub config_get : Config E → Text → Option Value
  unfolding lookup
  config_get cfg name = lookup cfg.vars name

  unfoldable pub config_set : Config E → Text → Value → Config E
  unfolding assign
  config_set cfg name value = record cfg { vars = assign cfg.vars name value }

  -- The binds of a key map; an unknown one has none.
  unfoldable pub keymap_binds : Config E → Text → Map Bind
  keymap_binds cfg keymap = elim (lookup cfg.binds keymap) [ none ↦ [] | some m ↦ m ]

  unfoldable pub config_bind : Config E → Text → Text → Text → Bool → Config E
  unfolding assign keymap_binds
  config_bind cfg keymap sequence action macro =
      let bound : Bind = record { action = action; macro = macro } in
      record cfg {
        binds = assign cfg.binds keymap (assign (keymap_binds cfg keymap) sequence bound);
      }

  unfoldable pub get_string : Config E → Text → Text
  get_string cfg name = elim (lookup cfg.vars name) as (λ _. Text) [
    | none ↦ []
    | some v ↦ elim v [ text s ↦ s | flag b ↦ [] | number n ↦ [] | other ↦ [] ]
  ]

  unfoldable pub get_int : Config E → Text → ℤ
  get_int cfg name = elim (lookup cfg.vars name) as (λ _. ℤ) [
    | none ↦ pos 0
    | some v ↦ elim v [ number n ↦ n | flag b ↦ pos 0 | text s ↦ pos 0 | other ↦ pos 0 ]
  ]

  unfoldable pub get_bool : Config E → Text → Bool
  get_bool cfg name = elim (lookup cfg.vars name) as (λ _. Bool) [
    | none ↦ false
    | some v ↦ elim v [ flag b ↦ b | text s ↦ false | number n ↦ false | other ↦ false ]
  ]

  -- A configuration as the handler of a parse.
  unfoldable pub config_handler : Handler (Config E) E
  unfolding config_read_file config_do config_get config_set config_bind
  config_handler = record {
    read_file = config_read_file;
    on_construct = λ cfg name value. (cfg, config_do cfg name value);
    set_var = λ cfg name value. (config_set cfg name value, none);
    get_var = config_get;
    bind = λ cfg keymap sequence action macro. (config_bind cfg keymap sequence action macro, none);
  }
