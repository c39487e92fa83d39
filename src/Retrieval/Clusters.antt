-- ===== src/Retrieval/Clusters.antt =====
-- The static table of `expanded_terms` in src/memory.cpp, in UTF-8.
use Prim.Native.String.{String}
use cogg_cpp.Base.{
  ◌≡◌, refl, ℕ, ◌+◌, ◌/◌, ◌%◌, List, [], ◌∷◌, ◌++◌, map, ltb, if◌then◌else◌, Text, codes,
}

-- The bytes of a character below U+0800.
abbrev utf8_char : ℕ → Text
utf8_char c = if ltb c 128 then c ∷ [] else (192 + c / 64) ∷ (128 + c % 64) ∷ []

abbrev utf8_chars : Text → Text
utf8_chars [] = []
utf8_chars (c ∷ rest) = utf8_char c ++ utf8_chars rest

abbrev utf8 : String → Text
utf8 s = utf8_chars (codes s)

abbrev transport : List String
transport =
    "automobile" ∷ "car" ∷ "vehicle" ∷ "auto" ∷ "truck" ∷ "transport" ∷ "tag" ∷ "plate"
    ∷ "registration" ∷ "license" ∷ []

abbrev delivery : List String
delivery = "destination" ∷ "delivery" ∷ "city" ∷ "location" ∷ "route" ∷ "shipment" ∷ "address" ∷ []

abbrev access : List String
access =
    "workshop" ∷ "access" ∷ "code" ∷ "password" ∷ "pin" ∷ "passcode" ∷ "key" ∷ "door" ∷ "locker"
    ∷ []

abbrev duty : List String
duty = "commitment" ∷ "promise" ∷ "obligation" ∷ "task" ∷ "duty" ∷ "reminder" ∷ "return" ∷ []

abbrev optics : List String
optics = "telescope" ∷ "lens" ∷ "optics" ∷ "instrument" ∷ []

abbrev photos : List String
photos = "camera" ∷ "photo" ∷ "photos" ∷ "photographs" ∷ "picture" ∷ "card" ∷ []

abbrev workflow : List String
workflow = "procedure" ∷ "workflow" ∷ "protocol" ∷ "steps" ∷ "runbook" ∷ "checklist" ∷ "method" ∷ []

abbrev books : List String
books =
    "книга" ∷ "книгу" ∷ "книги" ∷ "том" ∷ "издание" ∷ "шкаф" ∷ "шкафу" ∷ "комод" ∷ "комоде"
    ∷ "полка" ∷ []

abbrev cars : List String
cars = "автомобиль" ∷ "машина" ∷ "транспорт" ∷ "номер" ∷ "регистрация" ∷ []

unfoldable pub clusters : List (List Text)
clusters =
    map (map utf8)
      (transport ∷ delivery ∷ access ∷ duty ∷ optics ∷ photos ∷ workflow ∷ books ∷ cars ∷ [])

book_lem : utf8 "кн" ≡ 208 ∷ 186 ∷ 208 ∷ 189 ∷ []
book_lem = refl
