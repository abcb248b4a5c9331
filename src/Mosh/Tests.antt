-- ===== src/Mosh/Tests.antt =====
-- The start of a Mosh session on concrete inputs.
use quantumcat.Base.{
  ℕ, List, Bytes, ascii, bytes_eq, false, ◌≡◌, refl, none, some, [], ◌∷◌, ◌++◌, keep_if, any,
}
use quantumcat.Services.{cut}
use quantumcat.Config.{is_alnum}
use quantumcat.Mosh.{
  has_prefix, split_lines, trim_return, is_digit, is_key_char, are_all, decimal, valid_fields,
  connect_fields, strip, match_connect, MoshSession, bad_port, announced, read_session,
  parse_mosh_connect, escape, shell_word, mosh_server_command, mosh_environment, mosh_args,
  valid_destination,
}
use quantumcat.Mosh.{bounded_write}
use quantumcat.Base.{◌<◌, true, length, sym, append-nil}
use quantumcat.Mosh.Bootstrap.{
  contains, is_control, redact_byte, redact_end, redact_from, redact, join_lines, Strings, truncate,
  diagnostic_lines, mosh_diagnostic, bounded_writes, fails_with, bootstrap_mosh,
}
use quantumcat.Mosh.Bootstrap.Redaction.{IsTrimming, bootstrap_mosh_hides_key}
use quantumcat.Mosh.Quoting.{Starts, shell_words, shell_words-mosh_server_command}
use quantumcat.Mosh.Session.{IsAnnouncement, candidates, parse_mosh_connect-IsAnnouncement}

abbrev toy_key : Bytes
toy_key = ascii "abcdefghijklmnopqrstuv"

abbrev toy_line : Bytes
toy_line = ascii "MOSH CONNECT 60001 " ++ toy_key

abbrev toy_output : Bytes
toy_output = ascii "hello" ++ (10 ∷ (toy_line ++ (13 ∷ 10 ∷ [])))

abbrev toy_session : MoshSession
toy_session = record { port = 60001; key = toy_key }

parses_toy : parse_mosh_connect toy_output 0 ≡ some toy_session
unfolding parse_mosh_connect read_session split_lines trim_return has_prefix announced match_connect
    strip connect_fields cut valid_fields are_all is_digit is_key_char is_alnum bad_port decimal
parses_toy = refl

refuses_twice : parse_mosh_connect (toy_line ++ (10 ∷ toy_line)) 0 ≡ none
unfolding parse_mosh_connect read_session split_lines trim_return has_prefix announced match_connect
    strip connect_fields cut valid_fields are_all is_digit is_key_char is_alnum bad_port decimal
refuses_twice = refl

refuses_other_port : parse_mosh_connect toy_output 60002 ≡ none
unfolding parse_mosh_connect read_session split_lines trim_return has_prefix announced match_connect
    strip connect_fields cut valid_fields are_all is_digit is_key_char is_alnum bad_port decimal
refuses_other_port = refl

parse_mosh_connect-IsAnnouncement_example :
    (line : Bytes) × ((candidates (split_lines toy_output) ≡ line ∷ [])
      × IsAnnouncement 0 line toy_session)
parse_mosh_connect-IsAnnouncement_example =
    parse_mosh_connect-IsAnnouncement toy_output 0 toy_session parses_toy

abbrev toy_itoa : ℕ → Bytes
toy_itoa n = ascii "60001"

quotes_quote : shell_word (ascii "it's") ≡ ascii "'it'\"'\"'s'"
unfolding shell_word escape
quotes_quote = refl

shell_words-mosh_server_command_example :
    (words : List Bytes) × ((shell_words (
          mosh_server_command toy_itoa
            (ascii "/x/mosh server")
            0
            (ascii "it's" ∷ ascii "$(id)" ∷ []))
        ≡ some words)
      × Starts toy_itoa (ascii "/x/mosh server") 0 (ascii "it's" ∷ ascii "$(id)" ∷ []) words)
shell_words-mosh_server_command_example =
    shell_words-mosh_server_command toy_itoa (ascii "/x/mosh server") 0
      (ascii "it's" ∷ ascii "$(id)" ∷ [])

replaces_key :
    mosh_environment (ascii "A=1" ∷ ascii "MOSH_KEY=old" ∷ []) (ascii "new")
    ≡ ascii "A=1" ∷ ascii "MOSH_KEY=new" ∷ []
unfolding mosh_environment keep_if has_prefix
replaces_key = refl

splits_dashes :
    mosh_args (ascii "peer" ∷ ascii "--" ∷ ascii "top" ∷ []) ≡ some (ascii "peer", ascii "top" ∷ [])
unfolding mosh_args bytes_eq
splits_dashes = refl

refuses_option : valid_destination (ascii "-oProxyCommand=x") [] ≡ false
unfolding valid_destination has_prefix any
refuses_option = refl

abbrev toy_strings : Strings
toy_strings = record { repair = λ s. s; trim = λ s. s }

toy_trims : IsTrimming toy_strings
toy_trims = λ s. ([], ([], sym (append-nil s)))

-- A failing remote command that has printed the key to its standard error.
shows_redacted :
    bootstrap_mosh toy_strings false []
      ((ascii "key " ++ (toy_key ++ ascii "== !")) ∷ (10 ∷ toy_line) ∷ [])
      0
    ≡ fails_with (ascii "key [redacted] !")
unfolding bootstrap_mosh bounded_writes bounded_write mosh_diagnostic diagnostic_lines split_lines
    keep_if contains has_prefix is_control redact redact_from redact_byte redact_end is_key_char
    is_alnum join_lines truncate
shows_redacted = refl

redacted_part : are_all is_key_char (ascii "redacted") ≡ true
unfolding are_all is_key_char is_alnum
redacted_part = refl

bootstrap_mosh_hides_key_example : length (ascii "redacted") < 22
bootstrap_mosh_hides_key_example =
    bootstrap_mosh_hides_key toy_strings false []
      ((ascii "key " ++ (toy_key ++ ascii "== !")) ∷ (10 ∷ toy_line) ∷ []) 0
      (ascii "key [redacted] !") (ascii "key [") (ascii "redacted") (ascii "] !") toy_trims
      shows_redacted refl redacted_part
