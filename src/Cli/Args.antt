-- ===== src/Cli/Args.antt =====
-- Args, TakeValue and ParseArgs of src/cli/main.cc.
pub mod Printed
use model_crypt.Common.{
  ℕ, Option, some, none, Bool, true, false, ◌||◌, ◌&&◌, not, List, [], ◌∷◌, ◌==◌, if◌then◌else◌,
}
use model_crypt.Common.Buffer.{Bytes}
use model_crypt.Common.Texts.{codes, same}

pub record Args : Type 0 where
  pub command : Bytes
  pub input : Bytes
  pub output : Bytes
  pub key_file : Bytes
  pub key_env : Bytes
  pub compression : Bytes
  pub chunk_size : Bytes
  pub kdf_log_n : Bytes
  pub kdf_r : Bytes
  pub kdf_p : Bytes
  pub help : Bool
  pub version : Bool

abbrev pub no_args : Args
no_args = record {
  command = [];
  input = [];
  output = [];
  key_file = [];
  key_env = [];
  compression = [];
  chunk_size = [];
  kdf_log_n = [];
  kdf_r = [];
  kdf_p = [];
  help = false;
  version = false;
}

-- std::string::empty
abbrev pub empty : Bytes → Bool
empty [] = true
empty (b ∷ text) = false

-- The members that an option sets to its value.
pub data Member : Type 0 where
  an_input an_output a_key_file a_key_env a_compression a_chunk_size a_kdf_log_n a_kdf_r a_kdf_p :
      Member

abbrev pub assign : Member → Bytes → Args → Args
assign an_input value args = record args { input = value }
assign an_output value args = record args { output = value }
assign a_key_file value args = record args { key_file = value }
assign a_key_env value args = record args { key_env = value }
assign a_compression value args = record args { compression = value }
assign a_chunk_size value args = record args { chunk_size = value }
assign a_kdf_log_n value args = record args { kdf_log_n = value }
assign a_kdf_r value args = record args { kdf_r = value }
assign a_kdf_p value args = record args { kdf_p = value }

-- The branch that an argument takes; `refused` is --key and every unknown option.
pub data Kind : Type 0 where
  asks_help asks_version refused word : Kind
  valued : Member → Kind

abbrev pub dashed : Bytes → Bool
dashed [] = false
dashed (b ∷ text) = b == b'-'

unfoldable pub kind_of : Bytes → Kind
unfolding same
kind_of arg =
    if same arg (codes "-h") || same arg (codes "--help")
    then asks_help
    else if same arg (codes "--version")
    then asks_version
    else if same arg (codes "--in")
    then valued an_input
    else if same arg (codes "--out")
    then valued an_output
    else if same arg (codes "--key-file")
    then valued a_key_file
    else if same arg (codes "--key-env")
    then valued a_key_env
    else if same arg (codes "--compression")
    then valued a_compression
    else if same arg (codes "--chunk-size")
    then valued a_chunk_size
    else if same arg (codes "--kdf-log-n")
    then valued a_kdf_log_n
    else if same arg (codes "--kdf-r")
    then valued a_kdf_r
    else if same arg (codes "--kdf-p")
    then valued a_kdf_p
    else if same arg (codes "--key")
    then refused
    else if dashed arg
    then refused
    else word

-- One round of the loop, given the rounds that follow: `next` after this argument, and `value` after
-- its value too.
abbrev pub parse_one :
    Kind → Bytes → (Args → Option Args) → (Member → Args → Option Args) → Args → Option Args
parse_one asks_help arg next value args = next (record args { help = true })
parse_one asks_version arg next value args = next (record args { version = true })
parse_one refused arg next value args = none
parse_one word arg next value args =
    if empty args.command then next (record args { command = arg }) else none
parse_one (valued member) arg next value args = value member args

-- From argv[1] on; `none` is `false`.
unfoldable pub parse_args : List Bytes → Args → Option Args
unfolding kind_of
parse_args [] args = some args
parse_args (arg ∷ []) args = parse_one (kind_of arg) arg some (λ member args'. none) args
parse_args (arg ∷ v ∷ rest) args =
    parse_one (kind_of arg) arg (parse_args (v ∷ rest))
      (λ member args'. parse_args rest (assign member v args')) args
