-- ===== src/Cli/Args/Printed.antt =====
-- Command lines written from Args of src/cli/main.cc, and read back by ParseArgs.
use model_crypt.Common.{
  ◌≡◌, refl, sym, ◌∙◌, ap, Option, some, none, Bool, true, false, List, [], ◌∷◌, ◌++◌,
}
use model_crypt.Common.Buffer.{Bytes}
use model_crypt.Common.Texts.{codes, same}
use model_crypt.Cli.Args.{
  Args, no_args, Member, an_input, an_output, a_key_file, a_key_env, a_compression, a_chunk_size,
  a_kdf_log_n, a_kdf_r, a_kdf_p, assign, Kind, word, valued, kind_of, parse_one, parse_args,
}

abbrev pub option_name : Member → Bytes
option_name an_input = codes "--in"
option_name an_output = codes "--out"
option_name a_key_file = codes "--key-file"
option_name a_key_env = codes "--key-env"
option_name a_compression = codes "--compression"
option_name a_chunk_size = codes "--chunk-size"
option_name a_kdf_log_n = codes "--kdf-log-n"
option_name a_kdf_r = codes "--kdf-r"
option_name a_kdf_p = codes "--kdf-p"

abbrev value_of : Member → Args → Bytes
value_of an_input args = args.input
value_of an_output args = args.output
value_of a_key_file args = args.key_file
value_of a_key_env args = args.key_env
value_of a_compression args = args.compression
value_of a_chunk_size args = args.chunk_size
value_of a_kdf_log_n args = args.kdf_log_n
value_of a_kdf_r args = args.kdf_r
value_of a_kdf_p args = args.kdf_p

-- An option and its value, unless that is empty; a flag, if it is up.
abbrev pub option_words : Member → Bytes → List Bytes
option_words member [] = []
option_words member (b ∷ value) = option_name member ∷ (b ∷ value) ∷ []

abbrev pub flag_words : Bytes → Bool → List Bytes
flag_words name true = name ∷ []
flag_words name false = []

unfoldable pub printed : Args → List Bytes
printed args =
    args.command
    ∷ (option_words an_input args.input
        ++ (option_words an_output args.output
            ++ (option_words a_key_file args.key_file
                ++ (option_words a_key_env args.key_env
                    ++ (option_words a_compression args.compression
                        ++ (option_words a_chunk_size args.chunk_size
                            ++ (option_words a_kdf_log_n args.kdf_log_n
                                ++ (option_words a_kdf_r args.kdf_r
                                    ++ (option_words a_kdf_p args.kdf_p
                                        ++ (flag_words (codes "--help") args.help
                                            ++ flag_words (codes "--version") args.version))))))))))

kind_of-option_name : (member : Member) → kind_of (option_name member) ≡ valued member
unfolding kind_of same
kind_of-option_name an_input = refl
kind_of-option_name an_output = refl
kind_of-option_name a_key_file = refl
kind_of-option_name a_key_env = refl
kind_of-option_name a_compression = refl
kind_of-option_name a_chunk_size = refl
kind_of-option_name a_kdf_log_n = refl
kind_of-option_name a_kdf_r = refl
kind_of-option_name a_kdf_p = refl

assign_nothing :
    (member : Member) (args : Args) → value_of member args ≡ [] → assign member [] args ≡ args
assign_nothing an_input args e = ap (λ t. assign an_input t args) (sym e)
assign_nothing an_output args e = ap (λ t. assign an_output t args) (sym e)
assign_nothing a_key_file args e = ap (λ t. assign a_key_file t args) (sym e)
assign_nothing a_key_env args e = ap (λ t. assign a_key_env t args) (sym e)
assign_nothing a_compression args e = ap (λ t. assign a_compression t args) (sym e)
assign_nothing a_chunk_size args e = ap (λ t. assign a_chunk_size t args) (sym e)
assign_nothing a_kdf_log_n args e = ap (λ t. assign a_kdf_log_n t args) (sym e)
assign_nothing a_kdf_r args e = ap (λ t. assign a_kdf_r t args) (sym e)
assign_nothing a_kdf_p args e = ap (λ t. assign a_kdf_p t args) (sym e)

parse_args-option :
    (member : Member) (value : Bytes) (rest : List Bytes) (args : Args)
    → value_of member args ≡ []
    → parse_args (option_words member value ++ rest) args
      ≡ parse_args rest (assign member value args)
unfolding parse_args
parse_args-option member [] rest args e = ap (parse_args rest) (sym (assign_nothing member args e))
parse_args-option member (b ∷ value) rest args e = rw (kind_of-option_name member) refl

-- ParseArgs takes an argument of this kind and goes on.
parse_args-cons :
    (arg : Bytes) (rest : List Bytes) (kind : Kind) (args args' : Args)
    → kind_of arg ≡ kind
    → ((next : Args → Option Args) (value : Member → Args → Option Args)
        → parse_one kind arg next value args ≡ next args')
    → parse_args (arg ∷ rest) args ≡ parse_args rest args'
unfolding parse_args
parse_args-cons arg [] kind args args' is goes = rw is (goes some (λ member args'. none))
parse_args-cons arg (v ∷ rest) kind args args' is goes =
    rw is (goes (parse_args (v ∷ rest)) (λ member args'. parse_args rest (assign member v args')))

parse_args-flags :
    (asked wanted : Bool) (args : Args)
    → args.help ≡ false
    → args.version ≡ false
    → parse_args (flag_words (codes "--help") asked ++ flag_words (codes "--version") wanted) args
      ≡ some (record args { help = asked; version = wanted })
unfolding parse_args kind_of same
parse_args-flags true true args h v = refl
parse_args-flags true false args h v = ap (λ t. some (record args { help = true; version = t })) v
parse_args-flags false true args h v = ap (λ t. some (record args { help = t; version = true })) h
parse_args-flags false false args h v =
    ap (λ t. some (record args { help = t; version = args.version })) h
    ∙ ap (λ t. some (record args { help = false; version = t })) v

-- ParseArgs reads the printed form of a result back, whose command is not an option: the command, then
-- each member that is not empty behind its option, whatever its value looks like, then the flags.
pub parse_args-printed :
    (args : Args) → kind_of args.command ≡ word → parse_args (printed args) no_args ≡ some args
unfolding printed
parse_args-printed args is =
    parse_args-cons args.command _ word no_args (record no_args { command = args.command }) is
      (λ next value. refl)
    ∙ parse_args-option an_input args.input _ _ refl
    ∙ parse_args-option an_output args.output _ _ refl
    ∙ parse_args-option a_key_file args.key_file _ _ refl
    ∙ parse_args-option a_key_env args.key_env _ _ refl
    ∙ parse_args-option a_compression args.compression _ _ refl
    ∙ parse_args-option a_chunk_size args.chunk_size _ _ refl
    ∙ parse_args-option a_kdf_log_n args.kdf_log_n _ _ refl
    ∙ parse_args-option a_kdf_r args.kdf_r _ _ refl
    ∙ parse_args-option a_kdf_p args.kdf_p _ _ refl
    ∙ parse_args-flags args.help args.version _ refl refl
