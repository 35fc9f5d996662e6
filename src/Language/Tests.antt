-- ===== src/Language/Tests.antt =====
-- Command lines on concrete texts, and the theorems at such inputs.
use Prim.Native.String.{String}
use Prim.Native.Char.{code}
use teamspeak_js.Common.{eq_list, ◌≡◌, refl, true, inl, List, [], ◌∷◌, All, none, some, arith}
use teamspeak_js.Language.Text.{Text, Lacks, split, cut}
use teamspeak_js.Language.Escape.{escape, replace_each, replace_all, unescape, unescaped}
use teamspeak_js.Language.Escape.RoundTrip.{unescape-escape}
use teamspeak_js.Language.Escape.Safe.{escape-Lacks_delimiter}
use teamspeak_js.Language.Command.{
  put, is_command_name, parse_token, parse_tokens, from_printable, skip_unprintable, parse_parts,
  parse_command, build_command, build_command_ordered,
}
use teamspeak_js.Language.Command.Parse.{
  put_all, HasNoEquals, parse_command-build_command, parse_command-build_command_ordered,
}

-- The code units of an ASCII text.
abbrev units : String → Text
units String.[] = []
units (String.◌∷◌ letter rest) = code letter ∷ units rest

escape_runs : escape (units "a b|c\\/") ≡ units "a\\sb\\pc\\\\\\/"
unfolding escape replace_each replace_all
escape_runs = refl

unescape_runs : unescape (units "a\\\\sb\\q\\") ≡ units "a\\sb\\q\\"
unfolding unescape unescaped
unescape_runs = refl

escape-Lacks_delimiter_example : Lacks b' ' (escape (units "a b"))
escape-Lacks_delimiter_example = escape-Lacks_delimiter (units "a b") b' ' (inl refl)

unescape-escape_example : unescape (escape (units "a b\\s")) ≡ units "a b\\s"
unescape-escape_example = unescape-escape (units "a b\\s")

-- All that parsing and building compute with.
parses : Text → List (Text × Text)
unfolding parse_command skip_unprintable from_printable split parse_parts parse_tokens parse_token
    cut put eq_list is_command_name unescape unescaped
parses line = elim (parse_command line) [ none ↦ [] | some command ↦ command.params ]

data_row :
    parses (units "clid=6 cid=2 -uid")
    ≡ (units "clid", units "6") ∷ (units "cid", units "2") ∷ (units "-uid", []) ∷ []
unfolding parses
data_row = refl

last_value : parses (units "a=1 b=2 a=3") ≡ (units "a", units "3") ∷ (units "b", units "2") ∷ []
unfolding parses
last_value = refl

-- A key with an equals sign is not read back: `build` does not escape it.
abbrev message : List (Text × Text)
message = (units "msg", units "hi there|x=1") ∷ (units "-force", []) ∷ []

message-HasNoEquals : All HasNoEquals message
message-HasNoEquals = omega arith

send-is_command_name : is_command_name (units "sendtextmessage") ≡ true
unfolding is_command_name
send-is_command_name = refl

parse_command-build_command_example :
    parse_command (build_command (units "sendtextmessage") message)
    ≡ some (record { name = units "sendtextmessage"; params = put_all message [] })
parse_command-build_command_example =
    parse_command-build_command (units "sendtextmessage") message send-is_command_name
      message-HasNoEquals

parse_command-build_command_ordered_example :
    parse_command (build_command_ordered (units "sendtextmessage") message)
    ≡ some (record { name = units "sendtextmessage"; params = put_all message [] })
parse_command-build_command_ordered_example =
    parse_command-build_command_ordered (units "sendtextmessage") message send-is_command_name
      message-HasNoEquals
