-- ===== src/Invite/Code.antt =====
-- Drawing a code, and the share URL that carries it.
use collective.Prelude.{
  ℕ, ◌+◌, ◌-◌, ◌*◌, ◌/◌, ◌%◌, ◌≡◌, ◌↔◌, refl, ap, ◌∙◌, false, not, Option, none, some, List, [],
  ◌∷◌, ◌++◌, arith, if◌then◌else◌, ltb, ◌==◌, length, take, zero, suc, subst, All,
}
use collective.Text.{Text, bytes, has_prefix}
use collective.Text.Split.{split, Free, split-append, split-Free, split-All-Free}
use collective.Text.Affix.{has_prefix-append}
use collective.Invite.{InviteCode}

-- A digit of the URL alphabet of package encoding/base64.
unfoldable pub digit : ℕ → ℕ
digit n =
    if ltb n 26
    then b'A' + n
    else if ltb n 52
    then b'a' + (n - 26)
    else if ltb n 62
    then b'0' + (n - 52)
    else if n == 62
    then b'-'
    else b'_'

-- base64.URLEncoding.EncodeToString, with its padding.
unfoldable pub encode : List ℕ → Text
encode [] = []
encode (a ∷ []) = digit (a / 4) ∷ digit (a % 4 * 16) ∷ b'=' ∷ b'=' ∷ []
encode (a ∷ b ∷ []) = digit (a / 4) ∷ digit (a % 4 * 16 + b / 16) ∷ digit (b % 16 * 4) ∷ b'=' ∷ []
encode (a ∷ b ∷ c ∷ rest) =
    digit (a / 4)
    ∷ digit (a % 4 * 16 + b / 16)
    ∷ digit (b % 16 * 4 + c / 64)
    ∷ digit (c % 64)
    ∷ encode rest

-- generateInviteCode; the argument is what rand.Read filled in, or `none` for its error
unfoldable pub generate_invite_code : Option (List ℕ) → Option Text
generate_invite_code none = none
generate_invite_code (some b) = some (take 16 (encode b))

abbrev pub url_prefix : Text
url_prefix = bytes "collective://join/"

-- FormatShareURL
unfoldable pub format_share_url : InviteCode → Text → Text
format_share_url invite coordinator_endpoint =
    url_prefix ++ (coordinator_endpoint ++ (b'/' ∷ invite.code))

unfoldable pub drop : ℕ → Text → Text
drop zero s = s
drop (suc n) [] = []
drop (suc n) (c ∷ s) = drop n s

-- strings.TrimPrefix
unfoldable pub trim_prefix : Text → Text → Text
unfolding drop
trim_prefix s p = if has_prefix s p then drop (length p) s else s

-- The two parts of a share URL behind its prefix.
abbrev two_parts : List Text → Option (Text × Text)
two_parts (coordinator ∷ code ∷ []) = some (coordinator, code)
two_parts _ = none

-- ParseShareURL; `none` is its one error
unfoldable pub parse_share_url : Text → Option (Text × Text)
unfolding trim_prefix
parse_share_url url =
    if not (has_prefix url url_prefix)
    then none
    else two_parts (split b'/' (trim_prefix url url_prefix))

digit_free : (n : ℕ) → (digit n == b'/') ≡ false
unfolding digit
digit_free n = ground arith

encode-length :
    (b : List ℕ) (k : ℕ) → length b ≡ 3 * k → (length (encode b) ≡ 4 * k) × Free b'/' (encode b)
unfolding encode
encode-length [] k h = (omega arith, tt)
encode-length (x ∷ []) k h = absurd (omega arith)
encode-length (x ∷ y ∷ []) k h = absurd (omega arith)
encode-length (x ∷ y ∷ z ∷ rest) k h =
    let (l, f) = encode-length rest (k - 1) (omega arith) in
    (omega arith, (digit_free _, (digit_free _, (digit_free _, (digit_free _, f)))))

take-length : (n : ℕ) (s : Text) → length s ≡ n → take n s ≡ s
take-length zero [] h = refl
take-length zero (c ∷ s) h = absurd (omega arith)
take-length (suc n) [] h = refl
take-length (suc n) (c ∷ s) h = ap (λ t. c ∷ t) (take-length n s (omega arith))

-- The code of twelve bytes has sixteen digits, and none of them is a slash.
generate_invite_code-length :
    (b : List ℕ) (code : Text)
    → length b ≡ 12
    → generate_invite_code (some b) ≡ some code
    → (length code ≡ 16) × Free b'/' code
unfolding generate_invite_code
generate_invite_code-length b code h e =
    let (l, f) = encode-length b 4 h in
    let q : encode b ≡ code = cc (e, take-length 16 (encode b) l) in (rw (← q) l, rw (← q) f)

drop-append : (p s : Text) → drop (length p) (p ++ s) ≡ s
unfolding drop
drop-append [] s = refl
drop-append (c ∷ p) s = drop-append p s

parse_share_url-append : (t : Text) → parse_share_url (url_prefix ++ t) ≡ two_parts (split b'/' t)
unfolding parse_share_url
parse_share_url-append t = rw (has_prefix-append url_prefix t, drop-append url_prefix t) refl

two_parts-eq-some : (ps : List Text) (x y : Text) → two_parts ps ≡ some (x, y) → ps ≡ x ∷ y ∷ []
two_parts-eq-some [] x y h = absurd (cc)
two_parts-eq-some (p ∷ []) x y h = absurd (cc)
two_parts-eq-some (p ∷ q ∷ []) x y h = ground arith
two_parts-eq-some (p ∷ q ∷ r ∷ ps) x y h = absurd (cc)

-- A share URL parses back to its endpoint and code exactly if neither holds a slash.
pub parse_share_url-format_share_url :
    (invite : InviteCode) (endpoint : Text)
    → (parse_share_url (format_share_url invite endpoint) ≡ some (endpoint, invite.code))
      ↔ (Free b'/' endpoint × Free b'/' invite.code)
unfolding format_share_url
parse_share_url-format_share_url invite endpoint =
    rw (parse_share_url-append (endpoint ++ (b'/' ∷ invite.code))) (
      λ h.
          let parts =
            two_parts-eq-some (split b'/' (endpoint ++ (b'/' ∷ invite.code))) endpoint invite.code
              h in
          let (f, (g, _)) =
            subst (All (Free b'/')) parts
              (split-All-Free b'/' (endpoint ++ (b'/' ∷ invite.code))) in
          (f, g),
      λ (f, g). ap two_parts (
          split-append b'/' endpoint invite.code f
          ∙ ap (λ ps. endpoint ∷ ps) (split-Free b'/' invite.code g)),
    )
