-- ===== src/MessageTypes.antt =====
-- domain/message_types.py: when two payload types conflict.
pub mod Laws
pub mod Spelling
mod Examples
use systemlens.Prelude.{
  ℕ, zero, suc, ◌+◌, ◌-◌, Bool, true, false, ◌&&◌, ◌||◌, not, Option, none, some, List, [], ◌∷◌,
  ◌++◌, if◌then◌else◌, ◌==◌, nat_beq, contains, any, map, filter, length,
}
use systemlens.Text.{Text, text_eq, codes, is_space, is_word, is_digit, strip, infix_of, partition}
use systemlens.Text.Regex.{boundary, run}

abbrev pub non_informative : List Text
non_informative =
    codes "Object" ∷ codes "String" ∷ codes "byte[]" ∷ codes "Byte[]" ∷ codes "CharSequence" ∷ []

abbrev pub carrier_types : List Text
carrier_types =
    codes "JsonNode"
    ∷ codes "ObjectNode"
    ∷ codes "ArrayNode"
    ∷ codes "JsonElement"
    ∷ codes "JsonObject"
    ∷ codes "JSONObject"
    ∷ codes "GenericRecord"
    ∷ codes "GenericContainer"
    ∷ codes "IndexedRecord"
    ∷ codes "SpecificRecord"
    ∷ codes "SpecificRecordBase"
    ∷ codes "AbstractMessage"
    ∷ codes "DynamicMessage"
    ∷ codes "GeneratedMessage"
    ∷ codes "GeneratedMessageV3"
    ∷ codes "Bytes"
    ∷ codes "ByteBuffer"
    ∷ codes "Serializable"
    ∷ codes "Map"
    ∷ codes "HashMap"
    ∷ codes "LinkedHashMap"
    ∷ codes "TreeMap"
    ∷ codes "SortedMap"
    ∷ codes "NavigableMap"
    ∷ codes "ConcurrentMap"
    ∷ codes "ConcurrentHashMap"
    ∷ codes "Properties"
    ∷ []

abbrev pub raw_containers : List Text
raw_containers =
    codes "ConsumerRecord"
    ∷ codes "ConsumerRecords"
    ∷ codes "Message"
    ∷ codes "GenericMessage"
    ∷ codes "ProducerRecord"
    ∷ codes "KafkaTemplate"
    ∷ codes "KafkaConsumer"
    ∷ codes "KStream"
    ∷ codes "KTable"
    ∷ codes "Collection"
    ∷ codes "Iterable"
    ∷ codes "List"
    ∷ codes "Set"
    ∷ codes "Map"
    ∷ codes "Optional"
    ∷ codes "Stream"
    ∷ []

-- [\w$]
ident_char : ℕ → Bool
unfolding is_word
ident_char c = is_word c || nat_beq c b'$'

-- [A-Za-z_$]
ident_start : ℕ → Bool
unfolding ident_char
ident_start c = ident_char c && not (is_digit c)

-- A match of `(ident\.)+ident`: the last name, the length of the match, and whether a dot was
-- matched at all. `in_name` stands in the name `w`, whose last character is the `n`-th;
-- `after_dot` stands behind the dot that follows it.
mutual
  in_name : Text → ℕ → Bool → Text → Text × ℕ × Bool
  in_name w n dotted [] = (w, n, dotted)
  in_name w n dotted (c ∷ s) = elim (ident_char c) [
    | true ↦ in_name (w ++ c ∷ []) (suc n) dotted s
    | false ↦ elim (nat_beq c b'.') [ true ↦ after_dot w n dotted s | false ↦ (w, n, dotted) ]
  ]

  after_dot : Text → ℕ → Bool → Text → Text × ℕ × Bool
  after_dot w n dotted [] = (w, n, dotted)
  after_dot w n dotted (c ∷ s) = elim (ident_start c) [
    | true ↦ in_name (c ∷ []) (suc (suc n)) true s
    | false ↦ (w, n, dotted)
  ]

-- One place of _QUALIFIED_RE.sub: the text put out, and how many further characters are skipped.
qualified_at : Option ℕ → ℕ → Text → Text × ℕ
unfolding in_name after_dot ident_start boundary
qualified_at before c s =
    let (w, n, dotted) = in_name (c ∷ []) 0 false s in
    if boundary before (some c) && ident_start c && dotted then (w, n) else (c ∷ [], 0)

drop_qualifiers : Option ℕ → ℕ → Text → Text
unfolding qualified_at
drop_qualifiers before skip [] = []
drop_qualifiers before (suc skip) (c ∷ s) = drop_qualifiers (some c) skip s
drop_qualifiers before zero (c ∷ s) =
    let (out, skip) = qualified_at before c s in out ++ drop_qualifiers (some c) skip s

-- re.sub(r"\s+", "", text)
squeeze : Text → Text
unfolding is_space
squeeze = filter (λ c. not (is_space c))

unfoldable pub simple_spelling : Text → Text
unfolding drop_qualifiers squeeze
simple_spelling text = drop_qualifiers none 0 (squeeze text)

-- _IDENTIFIER_RE.findall: the names of a text, `w` being the one that is read
identifiers_in : Text → Text → List Text
unfolding ident_char ident_start
identifiers_in w [] = elim w [ [] ↦ [] | c ∷ r ↦ (c ∷ r) ∷ [] ]
identifiers_in w (c ∷ s) = elim w [
  | [] ↦ identifiers_in (if ident_start c then c ∷ [] else []) s
  | d ∷ r ↦ elim (ident_char c) [
    | true ↦ identifiers_in (d ∷ r ++ c ∷ []) s
    | false ↦ (d ∷ r) ∷ identifiers_in [] s
  ]
]

identifiers : Text → List Text
unfolding identifiers_in
identifiers = identifiers_in []

-- `simple` names a payload type: the tests between the two returns of `None`.
is_informative : Text → List Text → Bool
unfolding identifiers infix_of partition contains any
is_informative simple type_variables =
    not (simple == [] || infix_of (codes "?") simple || infix_of (codes "<>") simple)
    && not (contains non_informative simple || contains raw_containers simple)
    && not (contains carrier_types (partition b'<' simple).0)
    && not (
        contains (identifiers simple) (codes "Object")
        || any (contains (identifiers simple)) type_variables)

unfoldable pub informative_message_type : Option Text → List Text → Option Text
unfolding is_informative simple_spelling strip
informative_message_type none type_variables = none
informative_message_type (some text) type_variables =
    if is_informative (simple_spelling text) type_variables then some (strip text) else none

unfoldable pub message_type_key : Option Text → Option Text
unfolding informative_message_type simple_spelling
message_type_key text = elim (informative_message_type text []) [
  | none ↦ none
  | some informative ↦ some (simple_spelling informative)
]

conflicting : Option Text → Option Text → Bool
conflicting (some a) (some b) = not (a == b)
conflicting _ _ = false

unfoldable pub message_types_conflict : Option Text → Option Text → Bool
unfolding message_type_key conflicting
message_types_conflict produced consumed =
    conflicting (message_type_key produced) (message_type_key consumed)
