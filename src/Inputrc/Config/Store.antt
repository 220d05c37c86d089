-- ===== src/Inputrc/Config/Store.antt =====
-- A configuration keeps the variables that are set (inputrc/config.go).
use readline.Base.{refl}
use readline.Inputrc.Config.{
  config_handler, config_read_file, config_set, config_get, config_bind, lookup, assign,
}
use readline.Inputrc.Parser.Types.{IsStore}

pub config_handler-IsStore : {E : Type 0} → IsStore (config_handler {E = E})
unfolding config_handler config_read_file config_set config_get config_bind lookup assign
config_handler-IsStore = record {
  get-set = λ s name name' v. refl;
  get-bind = λ s keymap sequence action name macro. refl;
  get-construct = λ s keyword val name. refl;
  read-set = λ s name path v. refl;
  read-bind = λ s keymap sequence action path macro. refl;
  read-construct = λ s keyword val path. refl;
}
