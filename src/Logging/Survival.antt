-- ===== src/Logging/Survival.antt =====
-- Which secrets a logged line still shows.
use mathlib.Core.List.{append_assoc}
use Prim.Native.Char.{Char}
use cxone_flow_buildwork.Prelude.{
  ℕ, zero, suc, ◌≡◌, ◌≢◌, refl, sym, ap, ◌∙◌, arith, Bool, true, false, Option, none, some, List,
  [], ◌∷◌, ◌++◌, length, Bool-cases, inl, inr,
}
use cxone_flow_buildwork.Prelude.Slices.{take, drop, get_elem?}
use cxone_flow_buildwork.Logging.{Text, star, Header, format, is_member, one_line, register}
use cxone_flow_buildwork.Logging.Masking.{IsWithin}
use cxone_flow_buildwork.Logging.Stars.{HeaderFree, first_is_star}

some_char : {x y : Char} → some x ≡ some y → x ≡ y
some_char h = cc

append_nil : (secrets : List Text) → secrets ++ [] ≡ secrets
append_nil [] = refl
append_nil (secret ∷ secrets) = ap (λ l. secret ∷ l) (append_nil secrets)

-- registrations one after another
abbrev pub register_each : List (Option Text) → List Text → List Text
register_each [] secrets = secrets
register_each (text ∷ texts) secrets = register_each texts (register text secrets)

register-appends :
    (text : Option Text) (secrets : List Text)
    → (more : List Text) × (register text secrets ≡ secrets ++ more)
unfolding register
register-appends none secrets = ([], sym (append_nil secrets))
register-appends (some text) secrets = elim (Bool-cases (is_member text secrets)) [
  | inl there ↦ ([], ground (arith, append_nil secrets))
  | inr lacks ↦ (one_line text ∷ [], rw lacks refl)
]

register_each-appends :
    (texts : List (Option Text)) (secrets : List Text)
    → (more : List Text) × (register_each texts secrets ≡ secrets ++ more)
register_each-appends [] secrets = ([], sym (append_nil secrets))
register_each-appends (text ∷ texts) secrets =
    let (one, e) = register-appends text secrets in
    let (more, e2) = register_each-appends texts (register text secrets) in
    (one ++ more, e2 ∙ (ap (λ l. l ++ more) e ∙ append_assoc secrets one more))

registered-stays :
    (earlier : List Text) (secret : Text) (later : List (Option Text))
    → is_member secret earlier ≡ false
    → one_line secret ≡ secret
    → (more : List Text) × (register_each later (register (some secret) earlier)
        ≡ earlier ++ secret ∷ more)
unfolding register
registered-stays earlier secret later lacks line =
    let (more, e) = register_each-appends later (register (some secret) earlier) in
    let taken : register (some secret) earlier ≡ earlier ++ secret ∷ [] = ground (arith, line) in
    (more, e ∙ (ap (λ l. l ++ more) taken ∙ append_assoc earlier (secret ∷ []) more))

first_of :
    (k : ℕ) (line : Text) (c : Char) (cs : Text) (n : ℕ)
    → take (suc n) (drop k line) ≡ c ∷ cs
    → get_elem? line k ≡ some c
unfolding take drop get_elem?
first_of zero [] c cs n h = absurd (ground arith)
first_of zero (d ∷ line) c cs n h = ground arith
first_of (suc k) [] c cs n h = absurd (ground arith)
first_of (suc k) (d ∷ line) c cs n h = first_of k line c cs n h

-- A registered secret does not stay in a log line as it is: where it stands in a line, whatever stands
-- before and after it, whatever was registered before and is registered later, and however the
-- secrets overlap, the line that is written has another text in its place. Assumed of the secret: it
-- is not yet a member of the registry when it is registered; it has no line breaks, is not empty and
-- does not begin with a star. Assumed besides: the default regular expression matches nowhere in the
-- line, its matches elsewhere lie within their lines, and a character matches itself.
pub secret_is_masked :
    (same : Char → Char → Bool) (header : Text → Option Header) (earlier : List Text)
    (later : List (Option Text)) (before : Text) (c : Char) (cs after : Text)
    → ((c : Char) → same c c ≡ true)
    → IsWithin header
    → HeaderFree header (before ++ ((c ∷ cs) ++ after))
    → is_member (c ∷ cs) earlier ≡ false
    → one_line (c ∷ cs) ≡ c ∷ cs
    → c ≢ star
    → take (length (c ∷ cs)) (
        drop (length before) (
          format same header
            (register_each later (register (some (c ∷ cs)) earlier))
            (before ++ ((c ∷ cs) ++ after))))
      ≢ c ∷ cs
secret_is_masked same header earlier later before c cs after reflexive within free lacks line other
      shown =
    let (more, e) = registered-stays earlier (c ∷ cs) later lacks line in
    let here =
      first_of (length before)
        (format same header (register_each later (register (some (c ∷ cs)) earlier))
          (before ++ ((c ∷ cs) ++ after)))
        c cs (length cs) shown in
    let hidden =
      ap (λ l. get_elem? (format same header l (before ++ ((c ∷ cs) ++ after))) (length before)) e
      ∙ first_is_star same header earlier more before (c ∷ cs) after reflexive within free
          (omega arith) in
    other (some_char (sym here ∙ hidden))
