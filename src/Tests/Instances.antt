-- ===== src/Tests/Instances.antt =====
-- Concrete instances of the interfaces for the code outside the repository: a UUID written in unary,
-- an instant written as one character, a bucket as the list of its keys.
use be_pawfund.Prelude.{
  zero, suc, ◌≡◌, ◌≢◌, ◌<◌, ◌-◌, ◌%◌, ◌/◌, ◌*◌, refl, ap, ◌∙◌, Bool, true, false, not, ◌||◌, Option,
  none, some, List, [], ◌∷◌, arith, All, any, length, filter_by, if◌then◌else◌, Bool-cases, inl,
  inr,
}
use be_pawfund.Text.{Text, text_eq, trim_space, trim_left, trim_right, is_space}
use be_pawfund.Text.Laws.{text_eq_refl, text_eq_sound}
use be_pawfund.Domain.{Uuid, Instant, second}
use be_pawfund.Storage.{ObjectClient, Answer, done, missing, broken}
use be_pawfund.ObjectKey.{UuidPackage, is_uuid_char}
use be_pawfund.Deployment.{Rfc3339, year_10000}
use be_pawfund.Service.{Environment}

abbrev unary : Uuid → Text
unary zero = []
unary (suc u) = b'a' ∷ unary u

pub length-unary : (u : Uuid) → length (unary u) ≡ u
length-unary zero = refl
length-unary (suc u) = ap suc (length-unary u)

pub unary_chars : (u : Uuid) → All (λ c. is_uuid_char c ≡ true) (unary u)
unary_chars zero = tt
unary_chars (suc u) = (refl, unary_chars u)

abbrev pub unary_uuid : UuidPackage
unary_uuid = record {
  parse = λ s. some (length s);
  to_string = unary;
  parse-to_string = λ u. ap some (length-unary u);
  to_string_chars = unary_chars;
}

abbrev write : Instant → Text
write t = b'T' ∷ t / second ∷ b'Z' ∷ []

abbrev read : Text → Option Instant
read (a ∷ n ∷ z ∷ []) = some (n * second)
read _ = none

pub read-write : (t : Instant) → t < year_10000 → read (write t) ≡ some (t - t % second)
read-write t h = let whole : t / second * second ≡ t - t % second = omega arith in ap some whole

pub write_plain : (t : Instant) → trim_space (write t) ≡ write t
unfolding trim_space trim_left trim_right is_space
write_plain t = refl

abbrev pub short_rfc3339 : Rfc3339
short_rfc3339 = record {
  format = write;
  parse = read;
  parse-format = read-write;
  format_plain = write_plain;
}

abbrev has : List Text → Text → Bool
has b k = any (text_eq k) b

abbrev stat : List Text → Text → Answer
stat b k = if has b k then done else missing

abbrev copy : List Text → Text → Text → Answer × List Text
copy b dest source = if has b source then (done, dest ∷ b) else (missing, b)

abbrev without : List Text → Text → List Text
without b k = filter_by (λ x. not (text_eq x k)) b

pub has-without :
    (b : List Text) (key k : Text) → text_eq k key ≡ false → has (without b key) k ≡ has b k
has-without [] key k h = refl
has-without (x ∷ b) key k h = elim (Bool-cases (text_eq x key)) [
  | inl e ↦
      let other : text_eq k x ≡ false = ap (text_eq k) (text_eq_sound x key e) ∙ h in
      rw (e, other) (has-without b key k h)
  | inr e ↦ rw e (ap (λ t. text_eq k x || t) (has-without b key k h))
]

pub has-stat_done : (b : List Text) (k : Text) → stat b k ≡ done → has b k ≡ true
has-stat_done b k h = ground arith

pub has-stat_missing : (b : List Text) (k : Text) → stat b k ≡ missing → has b k ≡ false
has-stat_missing b k h = ground arith

pub has-copy_other :
    (b : List Text) (dest source k : Text)
    → text_eq k dest ≡ false
    → has (copy b dest source).1 k ≡ has b k
has-copy_other b dest source k h = ground arith

pub has-copy_done :
    (b : List Text) (dest source : Text)
    → (copy b dest source).0 ≡ done
    → has (copy b dest source).1 dest ≡ true
has-copy_done b dest source h = ground (arith, text_eq_refl dest)

pub has-copy_missing :
    (b : List Text) (dest source : Text) → (copy b dest source).0 ≡ missing → has b source ≡ false
has-copy_missing b dest source h = ground arith

abbrev pub listed_client : ObjectClient
listed_client = record {
  Bucket = List Text;
  holds = has;
  stat_object = stat;
  copy_object = copy;
  remove_object = λ b k. (done, without b k);
  stat-done = has-stat_done;
  stat-missing = has-stat_missing;
  copy-other = has-copy_other;
  copy-done = has-copy_done;
  copy-missing = has-copy_missing;
  remove-other = has-without;
}

pub stat_never_broken : (b : List Text) (k : Text) → stat b k ≢ broken
stat_never_broken b k e = ground arith

abbrev pub environment : Environment
environment = record {
  sql_lower = λ s. s;
  unicode_lower = λ c. c;
  uuid = unary_uuid;
  rfc3339 = short_rfc3339;
  client = listed_client;
  has_promoter = true;
  has_deleter = true;
}
