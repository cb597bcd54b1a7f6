-- ===== src/Api/Json.antt =====
-- JSON values as encoding/json writes and reads them, and the string maps of an unstructured
-- object. The codecs of the types of k8s.io/api are parameters.
use docker_in_k8s.Common.{Bool, false, Option, none, some, List, [], ◌∷◌, ◌≡◌, ◌≢◌, refl, ◌∙◌}
use docker_in_k8s.Common.Int.{ℤ}
use docker_in_k8s.Text.{Text}
use docker_in_k8s.Dicts.{Dict}

mutual
  pub data Json : Type 0 where
    null : Json
    bool : Bool → Json
    int : ℤ → Json
    text : Text → Json
    array : Items → Json
    object : Fields → Json

  pub data Items : Type 0 where
    nil : Items
    cons : Json → Items → Items

  pub data Fields : Type 0 where
    end : Fields
    field : Text → Json → Fields → Fields

-- map[string]any
abbrev pub JsonMap : Type 0
JsonMap = Text → Option Json

-- unstructured.NestedString, NestedBool and NestedInt64 below one field, with the flag dropped for
-- the first two: the zero value where the field is missing or of another type.
abbrev pub nested_string : JsonMap → Text → Text
nested_string m k = elim (m k) [ some (text t) ↦ t | _ ↦ [] ]

abbrev pub nested_bool : JsonMap → Text → Bool
nested_bool m k = elim (m k) [ some (bool b) ↦ b | _ ↦ false ]

abbrev pub nested_int : JsonMap → Text → Option ℤ
nested_int m k = elim (m k) [ some (int n) ↦ some n | _ ↦ none ]

texts_of : Items → Option (List Text)
texts_of nil = some []
texts_of (cons (text t) js) = elim (texts_of js) [ none ↦ none | some ts ↦ some (t ∷ ts) ]
texts_of (cons _ js) = none

-- unstructured.NestedStringSlice
abbrev as_texts : Option Json → List Text
as_texts (some (array js)) = elim (texts_of js) [ none ↦ [] | some ts ↦ ts ]
as_texts _ = []

unfoldable pub nested_string_slice : JsonMap → Text → List Text
unfolding texts_of
nested_string_slice m k = as_texts (m k)

-- How a Go type is written as JSON, and read back.
pub record Codec {ℓ} (A : Type ℓ) : Type ℓ where
  pub encode : A → Json
  pub decode : Json → Option A

pub record IsCodec {ℓ} {A : Type ℓ} (c : Codec A) : Type ℓ where
  pub round_trip : (a : A) → c.decode (c.encode a) ≡ some a
  pub not_null : (a : A) → c.encode a ≢ null

infixl 5 ◌>>=◌
abbrev pub ◌>>=◌ {ℓ κ} : {A : Type ℓ} {B : Type κ} → Option A → (A → Option B) → Option B
none >>= f = none
some a >>= f = f a

-- A slice: an empty one is nil in the program, which is written as null.
module _ {ℓ} {A : Type ℓ} (c : Codec A) where
  write_items : List A → Items
  write_items [] = nil
  write_items (a ∷ rest) = cons (c.encode a) (write_items rest)

  read_items : Items → Option (List A)
  read_items nil = some []
  read_items (cons j js) = do a ← c.decode j; rest ← read_items js; some (a ∷ rest)

  unfoldable pub write_list : List A → Json
  unfolding write_items
  write_list [] = null
  write_list (a ∷ rest) = array (write_items (a ∷ rest))

  unfoldable pub read_list : Json → Option (List A)
  unfolding read_items
  read_list null = some []
  read_list (array js) = read_items js
  read_list _ = none

  read_items-write_items : IsCodec c → (l : List A) → read_items (write_items l) ≡ some l
  unfolding read_items write_items
  read_items-write_items h [] = refl
  read_items-write_items h (a ∷ rest) = rw (h.round_trip a) (rw (read_items-write_items h rest))

  pub read_list-write_list : IsCodec c → (l : List A) → read_list (write_list l) ≡ some l
  unfolding read_list write_list
  read_list-write_list h [] = refl
  read_list-write_list h (a ∷ rest) = read_items-write_items h (a ∷ rest)

abbrev pub text_codec : Codec Text
text_codec = record { encode = text; decode = λ j. elim j [ text t ↦ some t | _ ↦ none ] }

-- map[string]string: an empty one is nil in the program, which is written as null.
write_fields : Dict Text → Fields
write_fields [] = end
write_fields ((k, v) ∷ m) = field k (text v) (write_fields m)

read_fields : Fields → Option (Dict Text)
read_fields end = some []
read_fields (field k (text v) fs) = do m ← read_fields fs; some ((k, v) ∷ m)
read_fields (field k _ fs) = none

unfoldable pub write_map : Dict Text → Json
unfolding write_fields
write_map [] = null
write_map (e ∷ m) = object (write_fields (e ∷ m))

unfoldable pub read_map : Json → Option (Dict Text)
unfolding read_fields
read_map null = some []
read_map (object fs) = read_fields fs
read_map _ = none

read_fields-write_fields : (m : Dict Text) → read_fields (write_fields m) ≡ some m
unfolding read_fields write_fields
read_fields-write_fields [] = refl
read_fields-write_fields ((k, v) ∷ m) = rw (read_fields-write_fields m)

pub read_map-write_map : (m : Dict Text) → read_map (write_map m) ≡ some m
unfolding read_map write_map
read_map-write_map [] = refl
read_map-write_map (e ∷ m) = read_fields-write_fields (e ∷ m)

-- A field of a struct: json.Unmarshal leaves the zero value where the field is missing or null.
abbrev pub read_field {ℓ} : {A : Type ℓ} → (Json → Option A) → A → Option Json → Option A
read_field read zero none = some zero
read_field read zero (some null) = some zero
read_field read zero (some j) = read j

module _ {ℓ} {A : Type ℓ} where
  pub read_field_of_not_null :
      (read : Json → Option A) (zero : A) (j : Json)
      → j ≢ null
      → read_field read zero (some j) ≡ read j
  read_field_of_not_null read zero null h = absurd (h refl)
  read_field_of_not_null read zero (bool b) h = refl
  read_field_of_not_null read zero (int n) h = refl
  read_field_of_not_null read zero (text t) h = refl
  read_field_of_not_null read zero (array js) h = refl
  read_field_of_not_null read zero (object fs) h = refl

  pub read_field-encode :
      {c : Codec A}
      → IsCodec c
      → (zero a : A) → read_field c.decode zero (some (c.encode a)) ≡ some a
  read_field-encode {c} h zero a =
      read_field_of_not_null c.decode zero (c.encode a) (h.not_null a) ∙ h.round_trip a

  pub read_field-write_list :
      {c : Codec A}
      → IsCodec c
      → (l : List A) → read_field (read_list c) [] (some (write_list c l)) ≡ some l
  unfolding write_list read_list
  read_field-write_list h [] = refl
  read_field-write_list {c} h (a ∷ rest) = read_items-write_items c h (a ∷ rest)

pub read_field-write_map : (m : Dict Text) → read_field read_map [] (some (write_map m)) ≡ some m
unfolding write_map read_map
read_field-write_map [] = refl
read_field-write_map (e ∷ m) = read_fields-write_fields (e ∷ m)

texts_of-write_items : (ts : List Text) → texts_of (write_items text_codec ts) ≡ some ts
unfolding texts_of write_items
texts_of-write_items [] = refl
texts_of-write_items (t ∷ ts) = rw (texts_of-write_items ts)

-- A slice of texts that was written is read back.
pub nested_string_slice-write_list :
    (m : JsonMap) (k : Text) (ts : List Text)
    → m k ≡ some (write_list text_codec ts)
    → nested_string_slice m k ≡ ts
unfolding nested_string_slice write_list
nested_string_slice-write_list m k [] e = rw e
nested_string_slice-write_list m k (t ∷ ts) e = rw e (rw (texts_of-write_items (t ∷ ts)))
