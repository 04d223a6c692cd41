-- ===== src/Tests/Writer.antt =====
-- A JSON library of objects of texts, written without braces, to run the launcher on.
use nxremote_api.Base.{
  ℕ, ◌≤◌, Bool, true, false, not, ◌&&◌, Option, none, some, List, [], ◌∷◌, ◌++◌, append_assoc,
  append-nil, take, take-length, drop, ◌-◌, length, length-append, ◌==◌, ◌≡◌, refl, sym, ap, ◌∙◌,
  arith,
}
use nxremote_api.Base.Text.{Bytes, codes}
use nxremote_api.Core.Album.{text_eq}
use nxremote_api.CString.Search.{c_str}
use nxremote_api.JsonSafeAccess.{Json}
use nxremote_api.Companion.Launcher.{Writer}
use nxremote_api.Companion.Launcher.Request.{c_str-plain, request_text, IsReader}
use nxremote_api.Companion.Launcher.Status.{
  plain_char, is_plain, lookup, room_of, all_plain, and_true, IsWriter,
}

pub data Doc : Type 0 where
  object : List (Bytes × Bytes) → Doc
  text : Bytes → Doc

abbrev pub encode : List (Bytes × Bytes) → Bytes
encode [] = []
encode ((k, v) ∷ ms) = k ++ 34 ∷ (v ++ 34 ∷ encode ms)

-- The members of a text, with what was read of one, and its name if that is read.
abbrev pub decode : Bytes → Option Bytes → Bytes → List (Bytes × Bytes)
decode acc key [] = []
decode acc none (c ∷ cs) = elim (c == 34) [
  | true ↦ decode [] (some acc) cs
  | false ↦ decode (acc ++ c ∷ []) none cs
]
decode acc (some key) (c ∷ cs) = elim (c == 34) [
  | true ↦ (key, acc) ∷ decode [] none cs
  | false ↦ decode (acc ++ c ∷ []) (some key) cs
]

abbrev pub text_of : Option Bytes → Option Doc
text_of none = none
text_of (some t) = some (text t)

abbrev pub find_in : Doc → Bytes → Option Doc
find_in (object ms) key = text_of (lookup ms key)
find_in (text t) key = none

abbrev pub is_found : Option Doc → Bool
is_found none = false
is_found (some v) = true

abbrev pub is_object_doc : Doc → Bool
is_object_doc (object ms) = true
is_object_doc (text t) = false

abbrev pub read_doc : Doc → Option Bytes
read_doc (object ms) = none
read_doc (text t) = some t

abbrev write_doc : Doc → Bytes
write_doc (object ms) = encode ms
write_doc (text t) = t

abbrev pub quoted : Json
quoted = record {
  Value = Doc;
  parse = λ t. some (object (decode [] none t));
  is_object = is_object_doc;
  is_array = λ v. false;
  is_string = λ v. not (is_object_doc v);
  is_number = λ v. false;
  contains = λ v key. is_found (find_in v key);
  find = find_in;
  get_string = read_doc;
  get_int = λ v. none;
  items = λ v. [];
  dump = write_doc;
}

abbrev pub writer : Writer quoted
writer = record { of_members = object }

plain_ne : (c : ℕ) → plain_char c ≡ true → (c == 34) ≡ false
plain_ne c h = ground arith

decode-key :
    (k acc rest : Bytes)
    → is_plain k ≡ true
    → decode acc none (k ++ 34 ∷ rest) ≡ decode [] (some (acc ++ k)) rest
decode-key [] acc rest h = ap (λ a. decode [] (some a) rest) (sym (append-nil acc))
decode-key (c ∷ cs) acc rest h =
    let (hc, hcs) = and_true (plain_char c) (is_plain cs) h in
    rw (plain_ne c hc, decode)
      (decode-key cs (acc ++ c ∷ []) rest hcs
        ∙ ap (λ a. decode [] (some a) rest) (append_assoc acc (c ∷ []) cs))

decode-value :
    (v acc key rest : Bytes)
    → is_plain v ≡ true
    → decode acc (some key) (v ++ 34 ∷ rest) ≡ (key, acc ++ v) ∷ decode [] none rest
decode-value [] acc key rest h = ap (λ a. (key, a) ∷ decode [] none rest) (sym (append-nil acc))
decode-value (c ∷ cs) acc key rest h =
    let (hc, hcs) = and_true (plain_char c) (is_plain cs) h in
    rw (plain_ne c hc, decode)
      (decode-value cs (acc ++ c ∷ []) key rest hcs
        ∙ ap (λ a. (key, a) ∷ decode [] none rest) (append_assoc acc (c ∷ []) cs))

pub decode-encode :
    (ms : List (Bytes × Bytes)) → all_plain ms ≡ true → decode [] none (encode ms) ≡ ms
decode-encode [] h = refl
decode-encode ((k, v) ∷ ms) h =
    let (hkv, hms) = and_true (is_plain k && is_plain v) (all_plain ms) h in
    let (hk, hv) = and_true (is_plain k) (is_plain v) hkv in
    decode-key k [] (v ++ 34 ∷ encode ms) hk
    ∙ decode-value v [] k (encode ms) hv
    ∙ ap (λ l. (k, v) ∷ l) (decode-encode ms hms)

pub c_str-encode : (ms : List (Bytes × Bytes)) → all_plain ms ≡ true → c_str (encode ms) ≡ encode ms
unfolding c_str
c_str-encode [] h = refl
c_str-encode ((k, v) ∷ ms) h =
    let (hkv, hms) = and_true (is_plain k && is_plain v) (all_plain ms) h in
    let (hk, hv) = and_true (is_plain k) (is_plain v) hkv in
    c_str-plain k (34 ∷ (v ++ 34 ∷ encode ms)) hk
    ∙ ap (λ t. k ++ 34 ∷ t)
        (c_str-plain v (34 ∷ encode ms) hv ∙ ap (λ t. v ++ 34 ∷ t) (c_str-encode ms hms))

length-encode : (ms : List (Bytes × Bytes)) → length (encode ms) ≤ room_of ms
length-encode [] = omega arith
length-encode ((k, v) ∷ ms) = omega (
  arith,
  length-append k (34 ∷ (v ++ 34 ∷ encode ms)),
  length-append v (34 ∷ encode ms),
  length-encode ms,
)

pub writer-IsWriter : IsWriter quoted writer
writer-IsWriter = record {
  reads = λ ms h. ap (λ l. some (object l)) (decode-encode ms h);
  objects = λ ms. refl;
  finds = λ ms key t h. (text t, ap text_of h, refl, refl);
  no_nul = c_str-encode;
  compact = λ ms h. length-encode ms;
}

-- The value of a request, without what stands before and behind it.
abbrev pub value_of : Bytes → Bytes
value_of t = let rest = drop 13 t in take (length rest - 2) rest

-- A library that takes every text for a request.
abbrev pub reader : Json
reader = record {
  Value = Doc;
  parse = λ t. some (object ((codes "title_id", value_of t) ∷ []));
  is_object = is_object_doc;
  is_array = λ v. false;
  is_string = λ v. not (is_object_doc v);
  is_number = λ v. false;
  contains = λ v key. is_found (find_in v key);
  find = find_in;
  get_string = read_doc;
  get_int = λ v. none;
  items = λ v. [];
  dump = write_doc;
}

abbrev pub reader_writer : Writer reader
reader_writer = record { of_members = object }

size : (value : Bytes) → length (value ++ codes "\"}") - 2 ≡ length value
size value = omega (arith, length-append value (codes "\"}"))

pub value_of-request_text : (value : Bytes) → value_of (request_text value) ≡ value
value_of-request_text value =
    ap (λ n. take n (value ++ codes "\"}")) (size value) ∙ take-length value (codes "\"}")

pub reader-IsReader : IsReader reader
unfolding text_eq
reader-IsReader = record {
  reads = λ value plain. (
    object ((codes "title_id", value) ∷ []),
    text value,
    ap (λ t. some (object ((codes "title_id", t) ∷ []))) (value_of-request_text value),
    refl,
    refl,
    refl,
    refl,
  );
}
