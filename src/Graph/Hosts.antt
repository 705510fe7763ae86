-- ===== src/Graph/Hosts.antt =====
-- service_hint_from_host and url_service_hint of domain/graph.py.
use systemlens.Prelude.{
  ℕ, Bool, false, ◌&&◌, ◌||◌, not, Option, none, some, List, [], ◌∷◌, if◌then◌else◌, ◌==◌, leb,
  nat_beq, length, all, contains, ℕ_eq,
}
use systemlens.Text.{
  Text, text_eq, codes, split, strip, rstrip_by, lower, ends_with, is_digit, is_alnum, is_space,
  infix_of,
}
use systemlens.Text.Regex.{after_literal, run1}

-- [a-z0-9-]
abbrev pub dns_char : ℕ → Bool
dns_char c = is_alnum c || nat_beq c b'-'

-- The rest of a label behind its first character: it ends in a letter or a digit.
label_rest : ℕ → Text → Bool
unfolding is_alnum
label_rest before [] = is_alnum before
label_rest before (c ∷ s) = dns_char c && label_rest c s

-- _DNS_LABEL_RE.fullmatch
unfoldable pub is_dns_label : Text → Bool
unfolding label_rest
is_dns_label [] = false
is_dns_label (c ∷ s) = is_alnum c && label_rest c s

-- \d{1,3}
is_octet : Text → Bool
unfolding all is_digit
is_octet s = all is_digit s && leb 1 (length s) && leb (length s) 3

-- _IPV4_HOST_RE.fullmatch
unfoldable pub is_ipv4 : Text → Bool
unfolding is_octet
is_ipv4 host = let labels = split b'.' host in nat_beq (length labels) 4 && all is_octet labels

-- host.strip().casefold().rstrip(".")
unfoldable pub normalized_host : Text → Text
normalized_host host = rstrip_by (λ c. nat_beq c b'.') (lower (strip host))

-- The answer for a well-formed host: its labels decide.
hint_of_labels : Text → List Text → Option Text
hint_of_labels normalized [] = some normalized
hint_of_labels normalized (first ∷ []) = some normalized
hint_of_labels normalized (first ∷ second ∷ labels) =
    if ends_with (codes ".svc") normalized || ends_with (codes ".svc.cluster.local") normalized
    then some first
    else some normalized

unfoldable pub service_hint_from_host : Text → Option Text
unfolding is_ipv4 hint_of_labels
service_hint_from_host host =
    let normalized = normalized_host host in
    let labels = split b'.' normalized in
    if normalized == [] || is_ipv4 normalized
    then none
    else if all is_dns_label labels
    then hint_of_labels normalized labels
    else none

-- [^/\s:?#"'`]
url_host_char : ℕ → Bool
unfolding is_space contains
url_host_char c = not (is_space c || contains (codes "/:?#\"'`") c)

-- The group of _URL_HOST_RE at one place.
unfoldable pub url_host_at : Text → Option Text
unfolding url_host_char
url_host_at s = elim (after_literal (codes "https://") s) [
  | some r ↦ run1 url_host_char r
  | none ↦ elim (after_literal (codes "http://") s) [ some r ↦ run1 url_host_char r | none ↦ none ]
]

without_dot : Option Text → Option Text
without_dot none = none
without_dot (some hint) = if infix_of (codes ".") hint then none else some hint

unfoldable pub url_service_hint : Text → Option Text
unfolding url_host_at without_dot
url_service_hint url = elim (url_host_at (strip url)) [
  | none ↦ none
  | some host ↦ without_dot (service_hint_from_host host)
]
