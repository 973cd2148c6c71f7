-- ===== src/Web/Json.antt =====
-- JSON as the pages read and write it. `JSON.parse` and `JSON.stringify` are the browser's: they
-- are a value of `JsonCodec`, and what the pages rely on is `IsDocumented`.
use Prim.Native.String.{String}
use Prim.Native.Char.{code}
use text.Mathlib.Text.{◌==◌ as str_eq}
use novelhub.Prelude.{
  ℕ, Bool, true, false, not, ◌&&◌, ◌||◌, Option, none, some, List, [], ◌∷◌, ◌≡◌, leb, if◌then◌else◌,
}
use novelhub.Prelude.Int.{ℤ}

-- A finite number counts multiples of the smallest positive double, so that every double but the
-- infinities (and minus zero, which is zero here) is one.
pub data Number : Type 0 where
  finite : ℤ → Number
  infinite : Number

mutual
  pub data Json : Type 0 where
    null : Json
    boolean : Bool → Json
    number : Number → Json
    string : String → Json
    array : Items → Json
    object : Fields → Json

  pub data Items : Type 0 where
    nil : Items
    cons : Json → Items → Items

  pub data Fields : Type 0 where
    end : Fields
    field : String → Json → Fields → Fields

-- `value[key]`; a key that is missing is `undefined`.
abbrev pub get : String → Fields → Option Json
get key end = none
get key (field k v fields) = if str_eq k key then some v else get key fields

abbrev pub is_finite_number : Number → Bool
is_finite_number (finite _) = true
is_finite_number infinite = false

abbrev has_key : String → Fields → Bool
has_key key end = false
has_key key (field k v fields) = str_eq k key || has_key key fields

-- Keys that start with a digit may be indices, which an object lists before its other keys.
abbrev is_index : String → Bool
is_index String.[] = false
is_index (String.◌∷◌ c s) = leb 48 (code c) && leb (code c) 57

-- What `JSON.parse` gives back as it was: numbers that are finite, and objects in the order of
-- their keys, none of which is there twice.
abbrev mutual
  pub is_plain : Json → Bool
  is_plain null = true
  is_plain (boolean _) = true
  is_plain (number n) = is_finite_number n
  is_plain (string _) = true
  is_plain (array items) = are_plain items
  is_plain (object fields) = have_plain fields

  pub are_plain : Items → Bool
  are_plain nil = true
  are_plain (cons v items) = is_plain v && are_plain items

  pub have_plain : Fields → Bool
  have_plain end = true
  have_plain (field k v fields) =
      not (has_key k fields || is_index k) && (is_plain v && have_plain fields)

-- `T` is the type of texts that hold JSON.
pub record JsonCodec (T : Type 0) : Type 0 where
  -- a text that is no JSON throws
  pub parse : T → Option Json
  pub stringify : Json → T
  -- `!raw` of a text
  pub is_blank : T → Bool
  -- how many of the smallest positive double make 1
  pub one : ℕ

pub record IsDocumented {T : Type 0} (codec : JsonCodec T) : Type 0 where
  pub parse-stringify : (v : Json) → is_plain v ≡ true → codec.parse (codec.stringify v) ≡ some v
  pub stringify_not_blank : (v : Json) → codec.is_blank (codec.stringify v) ≡ false

-- The elements of an array, and the array of a list.
abbrev pub to_list : Items → List Json
to_list nil = []
to_list (cons v items) = v ∷ to_list items

-- Values that are kept apart from their text, for the tests; `none` is a text that is no JSON.
abbrev pub plain_codec : JsonCodec (Option Json)
plain_codec = record { parse = λ t. t; stringify = λ v. some v; is_blank = λ t. false; one = 1 }
