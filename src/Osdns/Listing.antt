-- ===== src/Osdns/Listing.antt =====
-- The readers of what `networksetup` prints, of src/osdns/macos.rs.
use dnsrivet.Prelude.{Bool, false, if◌then◌else◌, Option, none, some, List, [], ◌∷◌, ℕ, ok, err}
use dnsrivet.Prelude.Texts.{Text, codes, trim, is_empty, starts_with, strip_prefix, lines}
use dnsrivet.Osdns.Addresses.{parse_dns_socket}

-- `skip(1)`
abbrev skip_title : List Text → List Text
skip_title [] = []
skip_title (_ ∷ rest) = rest

enabled_names : List Text → List Text
enabled_names [] = []
enabled_names (raw ∷ rest) =
    let line = trim raw in
    let names = enabled_names rest in
    if is_empty line then names else if starts_with (codes "*") line then names else line ∷ names

unfoldable pub parse_services : Text → List Text
unfolding enabled_names trim is_empty starts_with lines
parse_services text = enabled_names (skip_title (lines text))

without_star : Text → Text
without_star line = elim (strip_prefix (codes "*") line) [
  | none ↦ trim line
  | some rest ↦ trim rest
]

all_names : List Text → List Text
all_names [] = []
all_names (raw ∷ rest) =
    let line = trim raw in
    let names = all_names rest in if is_empty line then names else without_star line ∷ names

unfoldable pub parse_all_services : Text → List Text
unfolding all_names trim is_empty without_star strip_prefix lines
parse_all_services text = all_names (skip_title (lines text))

pub filled : List Text → List Text
filled [] = []
filled (raw ∷ rest) =
    let line = trim raw in let more = filled rest in if is_empty line then more else line ∷ more

-- `collect` into an `Option`: every line is an address.
unfoldable pub all_sockets : (Text → Option ℕ) → List Text → Option (List Text)
all_sockets interface_index [] = some []
all_sockets interface_index (line ∷ rest) = elim (parse_dns_socket interface_index line) [
  | err _ ↦ none
  | ok _ ↦ elim (all_sockets interface_index rest) [ none ↦ none | some more ↦ some (line ∷ more) ]
]

pub is_none_set : List Text → Bool
is_none_set [] = false
is_none_set (line ∷ []) = starts_with (codes "There aren't any DNS Servers set on") line
is_none_set (_ ∷ _ ∷ _) = false

unfoldable pub parse_dns_servers : (Text → Option ℕ) → Text → Option (List Text)
unfolding filled is_none_set all_sockets lines trim is_empty starts_with
parse_dns_servers interface_index text =
    if is_none_set (filled (lines text))
    then some []
    else all_sockets interface_index (filled (lines text))
