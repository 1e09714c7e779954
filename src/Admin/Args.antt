-- ===== src/Admin/Args.antt =====
-- The arguments of the administration commands.
use forge_proxy.Base.{
  Bytes, codes, Bool, true, false, ◌||◌, List, [], ◌∷◌, Option, none, some, ◌=ᵇ◌, ◌==◌, is_empty,
  if◌then◌else◌,
}
use forge_proxy.Strings.{split, trim_space, cut}

unfoldable pub keep_part : Bytes → List Bytes → List Bytes
keep_part trimmed rest = if is_empty trimmed then rest else trimmed ∷ rest

unfoldable pub trimmed_parts : List Bytes → List Bytes
unfolding keep_part trim_space
trimmed_parts [] = []
trimmed_parts (p ∷ ps) = keep_part (trim_space p) (trimmed_parts ps)

-- `parseRolesArg`
unfoldable pub parse_roles_arg : Bytes → List Bytes
unfolding trimmed_parts trim_space split
parse_roles_arg raw =
    let text = trim_space raw in if is_empty text then [] else trimmed_parts (split text b',')

-- What `flag.FlagSet` makes of the arguments of list-users.
pub record Flags : Type 0 where
  pub match : Bytes
  pub has_positional : Bool

-- One argument: it ends the flags, itself or after it; it is a flag with its value or without; or it
-- is an error.
pub data Arg : Type 0 where
  positional terminator wants_value bad : Arg
  has_value : Bytes → Arg

named : Bytes → Option (Bytes × Bytes) → Arg
unfolding ◌=ᵇ◌
named name none = if name =ᵇ codes "match" then wants_value else bad
named name (some (key, value)) = if key =ᵇ codes "match" then has_value value else bad

flag_of : Bytes → Arg
unfolding named cut
flag_of [] = bad
flag_of (c ∷ name) =
    if (c == b'-') || (c == b'=') then bad else named (c ∷ name) (cut b'=' (c ∷ name))

after_dash : Bytes → Arg
unfolding flag_of
after_dash [] = positional
after_dash (c ∷ rest) =
    if c == b'-' then (if is_empty rest then terminator else flag_of rest) else flag_of (c ∷ rest)

classify_arg : Bytes → Arg
unfolding after_dash
classify_arg [] = positional
classify_arg (c ∷ rest) = if c == b'-' then after_dash rest else positional

-- What to do at an argument: the flags end with their result, go on after it, or take the next
-- argument as their value.
parse_from : Bytes → List Bytes → Option Flags
unfolding classify_arg
parse_from match [] = some (record { match = match; has_positional = false })
parse_from match (a ∷ []) = elim (classify_arg a) [
  | positional ↦ some (record { match = match; has_positional = true })
  | terminator ↦ some (record { match = match; has_positional = false })
  | wants_value ↦ none
  | bad ↦ none
  | has_value v ↦ some (record { match = v; has_positional = false })
]
parse_from match (a ∷ b ∷ rest) = elim (classify_arg a) [
  | positional ↦ some (record { match = match; has_positional = true })
  | terminator ↦ some (record { match = match; has_positional = true })
  | wants_value ↦ parse_from b rest
  | bad ↦ none
  | has_value v ↦ parse_from v (b ∷ rest)
]

unfoldable pub parse_flags : List Bytes → Option Flags
unfolding parse_from
parse_flags args = parse_from [] args
