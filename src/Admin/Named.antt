-- ===== src/Admin/Named.antt =====
-- The roles that the argument of set-roles names.
use forge_proxy.Base.{Bytes, List, [], ◌∷◌, map, ◌≡◌, refl, ap, is_empty, if◌then◌else◌}
use forge_proxy.Strings.{split, trim_space}
use forge_proxy.Admin.Args.{keep_part, trimmed_parts, parse_roles_arg}

abbrev pub without_empty : List Bytes → List Bytes
without_empty [] = []
without_empty ([] ∷ ps) = without_empty ps
without_empty ((c ∷ p) ∷ ps) = (c ∷ p) ∷ without_empty ps

-- The parts between the commas, each trimmed, without the empty ones.
abbrev pub roles_named : Bytes → List Bytes
roles_named text = without_empty (map trim_space (split (trim_space text) b','))

keep_part-without_empty :
    (p : Bytes) (rest ps : List Bytes)
    → rest ≡ without_empty ps
    → keep_part p rest ≡ without_empty (p ∷ ps)
unfolding keep_part
keep_part-without_empty [] rest ps h = h
keep_part-without_empty (c ∷ p) rest ps h = ap (λ z. (c ∷ p) ∷ z) h

trimmed_parts-without_empty :
    (ps : List Bytes) → trimmed_parts ps ≡ without_empty (map trim_space ps)
unfolding trimmed_parts
trimmed_parts-without_empty [] = refl
trimmed_parts-without_empty (p ∷ ps) =
    keep_part-without_empty (trim_space p) (trimmed_parts ps) (map trim_space ps)
      (trimmed_parts-without_empty ps)

parts :
    (text : Bytes)
    → (if is_empty text then [] else trimmed_parts (split text b','))
      ≡ without_empty (map trim_space (split text b','))
unfolding split trim_space
parts [] = refl
parts (c ∷ text) = trimmed_parts-without_empty (split (c ∷ text) b',')

pub parse_roles_arg_lem : (text : Bytes) → parse_roles_arg text ≡ roles_named text
unfolding parse_roles_arg
parse_roles_arg_lem text = parts (trim_space text)
