-- ===== src/Language/Command/Parse.antt =====
-- src/core/command/parser.ts: parsing a command line that was built.
use teamspeak_js.Common.{
  ℕ, ◌≡◌, ◌≢◌, refl, ◌∙◌, ap, true, ◌==◌, Bool-cases, inl, inr, List, [], ◌∷◌, ◌++◌, map, All,
  All-append, Option, none, some, arith,
}
use teamspeak_js.Language.Text.{Text, Lacks, split, join, cut_at, cut-none, split-join}
use teamspeak_js.Language.Escape.{escape_map, escape}
use teamspeak_js.Language.Escape.RoundTrip.{
  escape_of, escaped, escape-cons, escape-nil, unescape-escape,
}
use teamspeak_js.Language.Escape.Safe.{escape-Lacks_delimiter, escape-Lacks_equals}
use teamspeak_js.Language.Command.{
  space, put, is_alphanumeric, all_alphanumeric, is_command_name, parse_token, parse_tokens,
  from_printable, skip_unprintable, parse_parts, parse_command, assignment, build_command,
  ordered_token, build_command_ordered,
}

alphanumeric-escape_of : (c : ℕ) → is_alphanumeric c ≡ true → escape_of c escape_map ≡ none
alphanumeric-escape_of c h = ground arith

first_alphanumeric : (c : ℕ) (s : Text) → all_alphanumeric (c ∷ s) ≡ true → is_alphanumeric c ≡ true
unfolding all_alphanumeric
first_alphanumeric c s h = ground arith

escape_alphanumeric : (s : Text) → all_alphanumeric s ≡ true → escape s ≡ s
unfolding all_alphanumeric
escape_alphanumeric [] h = escape-nil
escape_alphanumeric (c ∷ s) h =
    rw (escape-cons c s, alphanumeric-escape_of c (ground (arith, h)))
      (ap (λ t. c ∷ t) (escape_alphanumeric s (ground (arith, h))))

alphanumeric-Lacks-space : (s : Text) → all_alphanumeric s ≡ true → Lacks space s
unfolding all_alphanumeric
alphanumeric-Lacks-space [] h = tt
alphanumeric-Lacks-space (c ∷ s) h =
    (ground (arith, h), alphanumeric-Lacks-space s (ground (arith, h)))

escape-Lacks-space : (s : Text) → Lacks space (escape s)
escape-Lacks-space s = escape-Lacks_delimiter s space (inl refl)

assignment-Lacks-space : (k v : Text) → Lacks space (assignment (k, v))
assignment-Lacks-space k v =
    All-append _ (escape k) _ (escape-Lacks-space k) (omega arith, escape-Lacks-space v)

ordered_token-Lacks-space : (e : Text × Text) → Lacks space (ordered_token e)
unfolding ordered_token
ordered_token-Lacks-space ([], v) = assignment-Lacks-space [] v
ordered_token-Lacks-space (c ∷ k, []) = elim (Bool-cases (c == b'-')) [
  | inl flag ↦ rw flag (escape-Lacks-space (c ∷ k))
  | inr plain ↦ rw plain (assignment-Lacks-space (c ∷ k) [])
]
ordered_token-Lacks-space (c ∷ k, d ∷ v) = assignment-Lacks-space (c ∷ k) (d ∷ v)

-- A parameter whose key has no equals sign is read back from its token.
parse_token-assignment : (k v : Text) → Lacks b'=' k → parse_token (assignment (k, v)) ≡ (k, v)
unfolding parse_token
parse_token-assignment k v h =
    rw (cut_at b'=' (escape k) (escape v) (escape-Lacks_equals k h), parse_token)
      (rw (unescape-escape k, unescape-escape v) refl)

parse_token-flag : (k : Text) → Lacks b'=' k → parse_token (escape k) ≡ (k, [])
unfolding parse_token
parse_token-flag k h =
    rw (cut-none b'=' (escape k) (escape-Lacks_equals k h), parse_token)
      (rw (unescape-escape k) refl)

parse_token-ordered_token :
    (k v : Text) → Lacks b'=' k → parse_token (ordered_token (k, v)) ≡ (k, v)
unfolding ordered_token
parse_token-ordered_token [] v h = parse_token-assignment [] v h
parse_token-ordered_token (c ∷ k) [] h = elim (Bool-cases (c == b'-')) [
  | inl flag ↦ rw flag (parse_token-flag (c ∷ k) h)
  | inr plain ↦ rw plain (parse_token-assignment (c ∷ k) [] h)
]
parse_token-ordered_token (c ∷ k) (d ∷ v) h = parse_token-assignment (c ∷ k) (d ∷ v) h

append-ne-nil : (s t : Text) (c : ℕ) → s ++ c ∷ t ≢ []
append-ne-nil [] t c e = cc
append-ne-nil (d ∷ s) t c e = cc

ordered_token-ne-nil : (e : Text × Text) → ordered_token e ≢ []
unfolding ordered_token
ordered_token-ne-nil ([], v) = append-ne-nil (escape []) (escape v) b'='
ordered_token-ne-nil (c ∷ k, []) = elim (Bool-cases (c == b'-')) [
  | inl flag ↦ rw (flag, escape-cons c k) (escaped-ne-nil c (escape_of c escape_map) (escape k))
  | inr plain ↦ rw plain (append-ne-nil (escape (c ∷ k)) (escape []) b'=')
]
  where
    escaped-ne-nil : (c : ℕ) (o : Option ℕ) (s : Text) → escaped c o ++ s ≢ []
    escaped-ne-nil c none s e = cc
    escaped-ne-nil c (some to) s e = cc
ordered_token-ne-nil (c ∷ k, d ∷ v) = append-ne-nil (escape (c ∷ k)) (escape (d ∷ v)) b'='

parse_tokens-cons :
    (p : Text) (parts : List Text) (params : List (Text × Text)) (k v : Text)
    → p ≢ []
    → parse_token p ≡ (k, v)
    → parse_tokens (p ∷ parts) params ≡ parse_tokens parts (put k v params)
unfolding parse_tokens
parse_tokens-cons [] parts params k v ne e = absurd (ne refl)
parse_tokens-cons (c ∷ p) parts params k v ne e = rw e

-- The parameters in the order given, a later value of a key in the place of an earlier one.
pub put_all : List (Text × Text) → List (Text × Text) → List (Text × Text)
put_all [] params = params
put_all ((k, v) ∷ rest) params = put_all rest (put k v params)

abbrev pub HasNoEquals : Text × Text → Type 0
HasNoEquals (k, _) = Lacks b'=' k

-- A line that starts with a printable character loses nothing.
skip_unprintable_name :
    (c : ℕ) (s : Text) → is_alphanumeric c ≡ true → skip_unprintable (c ∷ s) ≡ c ∷ s
unfolding skip_unprintable from_printable
skip_unprintable_name c s h = ground arith

join-cons :
    (c : ℕ) (s : Text) (parts : List Text) → (t : Text) × (join space ((c ∷ s) ∷ parts) ≡ c ∷ t)
unfolding join
join-cons c s [] = (s, refl)
join-cons c s (p ∷ parts) = (s ++ space ∷ join space (p ∷ parts), refl)

parse_command-join-parts :
    (c : ℕ) (s : Text) (parts : List Text)
    → is_alphanumeric c ≡ true
    → parse_command (join space ((c ∷ s) ∷ parts))
      ≡ parse_parts (split space (join space ((c ∷ s) ∷ parts)))
unfolding parse_command
parse_command-join-parts c s parts h =
    let (t, e) = join-cons c s parts in rw (e, skip_unprintable_name c t h) refl

parse_parts_named :
    (c : ℕ) (s : Text) (parts : List Text)
    → is_command_name (c ∷ s) ≡ true
    → parse_parts ((c ∷ s) ∷ parts) ≡ some (record { name = c ∷ s; params = parse_tokens parts [] })
unfolding parse_parts
parse_parts_named c s parts h = rw h refl

-- A way to write a parameter as a token that is read back.
record IsToken (token : Text × Text → Text) : Type 0 where
  no_space : (e : Text × Text) → Lacks space (token e)
  not_empty : (e : Text × Text) → token e ≢ []
  parsed : (k v : Text) → Lacks b'=' k → parse_token (token (k, v)) ≡ (k, v)

module _ (token : Text × Text → Text) (is_token : IsToken token) where
  parse_tokens-map :
      (es params : List (Text × Text))
      → All HasNoEquals es
      → parse_tokens (map token es) params ≡ put_all es params
  unfolding put_all
  parse_tokens-map [] params h = unfold parse_tokens in refl
  parse_tokens-map ((k, v) ∷ es) params (hk, h) =
      parse_tokens-cons (token (k, v)) (map token es) params k v (is_token.not_empty (k, v))
        (is_token.parsed k v hk)
      ∙ parse_tokens-map es (put k v params) h

  map-Lacks-space : (es : List (Text × Text)) → All (Lacks space) (map token es)
  map-Lacks-space [] = tt
  map-Lacks-space (e ∷ es) = (is_token.no_space e, map-Lacks-space es)

  parse_command-join :
      (cmd : Text) (params : List (Text × Text))
      → is_command_name cmd ≡ true
      → All HasNoEquals params
      → parse_command (join space (escape cmd ∷ map token params))
        ≡ some (record { name = cmd; params = put_all params [] })
  unfolding is_command_name
  parse_command-join [] params h k = cc
  parse_command-join (c ∷ s) params h k = rw (
    escape_alphanumeric (c ∷ s) h,
    parse_command-join-parts c s (map token params) (first_alphanumeric c s h),
    split-join space (c ∷ s) (map token params) (alphanumeric-Lacks-space (c ∷ s) h)
        (map-Lacks-space params),
    parse_parts_named c s (map token params) h,
    parse_tokens-map params [] k,
  )

assignment-IsToken : IsToken assignment
assignment-IsToken = record {
  no_space = λ e. assignment-Lacks-space e.0 e.1;
  not_empty = λ e. append-ne-nil (escape e.0) (escape e.1) b'=';
  parsed = parse_token-assignment;
}

ordered_token-IsToken : IsToken ordered_token
ordered_token-IsToken = record {
  no_space = ordered_token-Lacks-space;
  not_empty = ordered_token-ne-nil;
  parsed = parse_token-ordered_token;
}

-- A line built from a command name and parameters whose keys have no equals sign is parsed to that
-- name and those parameters, with the last value of a key that is given twice.
pub parse_command-build_command :
    (cmd : Text) (params : List (Text × Text))
    → is_command_name cmd ≡ true
    → All HasNoEquals params
    → parse_command (build_command cmd params)
      ≡ some (record { name = cmd; params = put_all params [] })
unfolding build_command
parse_command-build_command = parse_command-join assignment assignment-IsToken

-- So is one built with `buildCommandOrdered`, which writes a flag as a bare word.
pub parse_command-build_command_ordered :
    (cmd : Text) (params : List (Text × Text))
    → is_command_name cmd ≡ true
    → All HasNoEquals params
    → parse_command (build_command_ordered cmd params)
      ≡ some (record { name = cmd; params = put_all params [] })
unfolding build_command_ordered
parse_command-build_command_ordered = parse_command-join ordered_token ordered_token-IsToken
