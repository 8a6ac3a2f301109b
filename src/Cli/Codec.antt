-- ===== src/Cli/Codec.antt =====
-- A serializer and a deserializer for the tests of src/cli/src/main.rs: numbers in unary, texts and
-- lists behind their lengths.
use mathlib.Core.Path.{subst}
use aardbin.Prelude.{
  All, All-append, Bool, Bytes, List, Option, Text, [], ap, append_assoc, append-nil, arith,
  as_bytes, false, if◌then◌else◌, length, map, none, pos, refl, some, suc, sym, true, utf8_char,
  zero, ℕ, ◌++◌, ◌==◌, ◌∙◌, ◌∷◌, ◌≡◌, ◌≤◌,
}
use aardbin.Views
use aardbin.Views.{Json, created_json, error_json, record_json}
use aardbin.Cli.Host.{ApiAttachmentMeta, ApiRecord}
use aardbin.Cli.Wire.{attachment_seen, seen}

abbrev put_nat : ℕ → Text
put_nat zero = 0 ∷ []
put_nat (suc n) = 1 ∷ put_nat n

-- a reader of some first bytes, with the bytes that are left
abbrev Reader : Type 0 → Type 0
Reader A = Bytes → Option (A × Bytes)

infixl 5 ◌>>=◌
abbrev ◌>>=◌ : {A B : Type 0} → Reader A → (A → Reader B) → Reader B
◌>>=◌ m f s = elim (m s) [ none ↦ none | some (a, s') ↦ f a s' ]

abbrev pure : {A : Type 0} → A → Reader A
pure a s = some (a, s)

abbrev one_more : Option (ℕ × Bytes) → Option (ℕ × Bytes)
one_more none = none
one_more (some (n, s)) = some (suc n, s)

unfoldable pub get_nat : Reader ℕ
get_nat [] = none
get_nat (c ∷ s) = let more = one_more (get_nat s) in if c == 0 then some (0, s) else more

-- The reader takes the text, whatever follows it, for the value.
record Reads {A : Type 0} (m : Reader A) (a : A) (t : Text) : Type 0 where
  pub takes : (s : Bytes) → m (t ++ s) ≡ some (a, s)
  pub bits : All (λ c. c ≤ 1) t

module _ {A : Type 0} where
  Reads-pure : (a : A) → Reads (pure a) a []
  Reads-pure a = record { takes = λ s. refl; bits = tt }

module _ {A B : Type 0} where
  Reads-bind :
      {m : Reader A} (f : A → Reader B) {a : A} {b : B} {t u : Text}
      → Reads m a t
      → Reads (f a) b u
      → Reads (m >>= f) b (t ++ u)
  Reads-bind {m} f {b} {t} {u} hm hf = record {
    takes = λ s.
        ap (λ x. elim x [ none ↦ none | some r ↦ f r.0 r.1 ])
          (ap m (append_assoc t u s) ∙ hm.takes (u ++ s))
        ∙ hf.takes s;
    bits = All-append (λ c. c ≤ 1) t u hm.bits hf.bits;
  }

Reads-nat : (n : ℕ) → Reads get_nat n (put_nat n)
unfolding get_nat
Reads-nat zero = record { takes = λ s. refl; bits = (omega arith, tt) }
Reads-nat (suc n) = record {
  takes = λ s. ap one_more ((Reads-nat n).takes s);
  bits = (omega arith, (Reads-nat n).bits);
}

module _ {A : Type 0} where
  abbrev put_each : (A → Text) → List A → Text
  put_each put [] = []
  put_each put (x ∷ xs) = put x ++ put_each put xs

  abbrev get_each : Reader A → ℕ → Reader (List A)
  get_each get zero = pure []
  get_each get (suc n) = do x ← get; xs ← get_each get n; pure (x ∷ xs)

  abbrev put_list : (A → Text) → List A → Text
  put_list put xs = put_nat (length xs) ++ put_each put xs

  abbrev get_list : Reader A → Reader (List A)
  get_list get = do n ← get_nat; get_each get n

module _ {A B : Type 0} (g : A → B) where
  Reads-each :
      {put : A → Text} {get : Reader B}
      → ((x : A) → Reads get (g x) (put x))
      → (xs : List A) → Reads (get_each get (length xs)) (map g xs) (put_each put xs)
  Reads-each each [] = Reads-pure []
  Reads-each {put} {get} each (x ∷ xs) =
      subst (Reads (get_each get (suc (length xs))) (g x ∷ map g xs))
        (ap (λ t. put x ++ t) (append-nil (put_each put xs)))
        (Reads-bind _ (each x) (Reads-bind _ (Reads-each each xs) (Reads-pure (g x ∷ map g xs))))

  Reads-list :
      {put : A → Text} {get : Reader B}
      → ((x : A) → Reads get (g x) (put x))
      → (xs : List A) → Reads (get_list get) (map g xs) (put_list put xs)
  Reads-list each xs = Reads-bind _ (Reads-nat (length xs)) (Reads-each each xs)

map_same : (s : Text) → map (λ c. c) s ≡ s
map_same [] = refl
map_same (c ∷ s) = ap (λ t. c ∷ t) (map_same s)

abbrev put_text : Text → Text
put_text = put_list put_nat

abbrev get_text : Reader Text
get_text = get_list get_nat

Reads-text : (s : Text) → Reads get_text s (put_text s)
Reads-text s =
    subst (λ v. Reads get_text v (put_text s)) (map_same s) (Reads-list (λ c. c) Reads-nat s)

abbrev put_bool : Bool → Text
put_bool true = put_nat 1
put_bool false = put_nat 0

abbrev get_bool : Reader Bool
get_bool = get_nat >>= λ n. pure (n == 1)

Reads-bool : (b : Bool) → Reads get_bool b (put_bool b)
Reads-bool true = Reads-bind _ (Reads-nat 1) (Reads-pure true)
Reads-bool false = Reads-bind _ (Reads-nat 0) (Reads-pure false)

abbrev put_attachment : Views.ApiAttachmentMeta → Text
put_attachment a = put_text a.id ++ (put_text a.original_filename ++ (put_nat a.size_bytes ++ []))

abbrev get_attachment : Reader ApiAttachmentMeta
get_attachment = do
  id ← get_text
  name ← get_text
  size ← get_nat
  pure (record { id = id; original_filename = name; size_bytes = pos size })

Reads-attachment :
    (a : Views.ApiAttachmentMeta) → Reads get_attachment (attachment_seen a) (put_attachment a)
Reads-attachment a = Reads-bind _ (Reads-text a.id) (
    Reads-bind _ (Reads-text a.original_filename)
      (Reads-bind _ (Reads-nat a.size_bytes) (Reads-pure (attachment_seen a))))

abbrev put_record : Views.ApiRecord → Text
put_record r =
    put_text r.id
    ++ (put_text r.title
        ++ (put_text r.content
            ++ (put_bool r.untitled
                ++ (put_nat r.updated_at ++ (put_list put_attachment r.attachments ++ [])))))

abbrev get_record : Reader ApiRecord
get_record = do
  id ← get_text
  title ← get_text
  content ← get_text
  untitled ← get_bool
  updated_at ← get_nat
  attachments ← get_list get_attachment
  pure (record {
    id = id;
    title = title;
    content = content;
    untitled = untitled;
    updated_at = pos updated_at;
    attachments = attachments;
  })

Reads-record : (r : Views.ApiRecord) → Reads get_record (seen r) (put_record r)
Reads-record r = Reads-bind _ (Reads-text r.id) (
    Reads-bind _ (Reads-text r.title) (
      Reads-bind _ (Reads-text r.content) (
        Reads-bind _ (Reads-bool r.untitled) (
          Reads-bind _ (Reads-nat r.updated_at) (
            Reads-bind _ (Reads-list attachment_seen Reads-attachment r.attachments)
              (Reads-pure (seen r)))))))

-- the serializer, where the tests look at what it gives
abbrev pub to_text : Json → Text
to_text (record_json r) = put_record r
to_text (created_json id) = put_text id
to_text (error_json message) = put_text message
to_text _ = []

abbrev value_of : {A : Type 0} → Option (A × Bytes) → Option A
value_of none = none
value_of (some (a, s)) = some a

unfoldable pub read_text : Bytes → Option Text
unfolding get_nat
read_text bytes = value_of (get_text bytes)

unfoldable pub read_record : Bytes → Option ApiRecord
read_record bytes = value_of (get_record bytes)

-- A text of bits is its own encoding.
as_bytes_bits : (t : Text) → All (λ c. c ≤ 1) t → as_bytes t ≡ t
unfolding as_bytes utf8_char
as_bytes_bits [] h = refl
as_bytes_bits (c ∷ t) (le, h) = ground (arith, as_bytes_bits t h)

whole_lem :
    {A : Type 0} {m : Reader A} {a : A} {t : Text}
    → Reads m a t
    → value_of (m (as_bytes t)) ≡ some a
whole_lem {m} {t} r = ap value_of (ap m (as_bytes_bits t r.bits ∙ sym (append-nil t)) ∙ r.takes [])

pub read_text-to_text : (id : Text) → read_text (as_bytes (to_text (created_json id))) ≡ some id
unfolding read_text
read_text-to_text id = whole_lem (Reads-text id)

pub read_record-to_text :
    (r : Views.ApiRecord) → read_record (as_bytes (to_text (record_json r))) ≡ some (seen r)
unfolding read_record
read_record-to_text r = whole_lem (Reads-record r)
