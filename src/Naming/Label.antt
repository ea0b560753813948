-- ===== src/Naming/Label.antt =====
-- The names of naming.py as DNS labels (RFC 1123), which Kubernetes and HAProxy ask for, and how
-- far a name tells the pull requests of a repository apart.
use Prim.Native.Nat.{min}
use mathlib.Core.List.{append_assoc, append_cancel_left}
use demos_rework.Base.Utf8.{encode}
use demos_rework.Base.{
  ℕ, ◌+◌, ◌/◌, ◌%◌, ◌≤◌, ◌<◌, ◌≡◌, refl, sym, ◌∙◌, true, [], ◌∷◌, ◌++◌, arith, take, length, All,
  All-append, All-take, All-imp, length-append, length-take, take_all, take-append,
}
use demos_rework.Base.Text.{Text, text, is_digit, lower, lower_char}
use demos_rework.Base.Decimal.{
  str, str_digits, length-str-le, le-length-str, le-length-str_one, str_step, str_injective,
}
use demos_rework.Hashes.{Hashes, is_hex}
use demos_rework.Naming.{resource_slug, resource_stem, resource_name, hostname_label}
use demos_rework.Naming.Slug.{
  is_alnum, is_dash, is_slug_char, slug-All, LastFails, rstrip-All, rstrip-LastFails, length-rstrip,
  rstrip-head, rstrip_whole, slug, slug-head,
}

abbrev pub StartsAlnum : Text → Type 0
StartsAlnum [] = ⊥
StartsAlnum (c ∷ _) = is_alnum c ≡ true

pub record IsLabel (t : Text) : Type 0 where
  pub short : length t ≤ 63
  pub chars : All (λ c. is_slug_char c ≡ true) t
  pub starts : StartsAlnum t
  pub ends : LastFails is_dash t

abbrev Plain : Text → Type 0
Plain t = All (λ c. is_slug_char c ≡ true) t

str-Plain : (n : ℕ) → Plain (str n)
str-Plain n =
    All-imp (λ c. is_digit c ≡ true) (λ c. is_slug_char c ≡ true) (λ c h. ground arith) (str n)
      (str_digits n)

hex-Plain : (t : Text) → All (λ c. is_hex c ≡ true) t → Plain t
hex-Plain = All-imp (λ c. is_hex c ≡ true) (λ c. is_slug_char c ≡ true) (λ c h. ground arith)

dashes : Plain (text "-pr-")
unfolding text
dashes = (refl, (refl, (refl, (refl, tt))))

stem-Plain : (h : Hashes) (repository : Text) → Plain (resource_stem h repository)
unfolding resource_stem resource_slug text
stem-Plain h repository =
    let tail =
      All-append (λ c. is_slug_char c ≡ true) (take 8 (h.sha256 (encode repository))) (text "-pr-")
        (All-take _ 8 (h.sha256 (encode repository))
          (hex-Plain _ (h.sha256_hex (encode repository))))
        dashes in
    (
      refl,
      (
        refl,
        (
          refl,
          (
            refl,
            (
              refl,
              All-append _ (take 39 (resource_slug repository)) _
                  (All-take _ 39 (resource_slug repository) (slug-All _)) (refl, tail),
            ),
          ),
        ),
      ),
    )

-- 5 characters, at most 39 of the slug, and 13 with the digest.
length-stem :
    (h : Hashes) (repository : Text)
    → length (resource_stem h repository) ≡ 18 + min 39 (length (resource_slug repository))
unfolding resource_stem text
length-stem h repository =
    let slugged = take 39 (resource_slug repository) in
    let digest = take 8 (h.sha256 (encode repository)) in
    omega (
      arith,
      h.sha256_length (encode repository),
      length-append slugged (text "-" ++ (digest ++ text "-pr-")),
      length-append digest (text "-pr-"),
      length-take 39 (resource_slug repository),
      length-take 8 (h.sha256 (encode repository)),
    )

stem-head : (h : Hashes) (repository : Text) → (r : Text) × (resource_stem h repository ≡ b'd' ∷ r)
unfolding resource_stem text
stem-head h repository = (_, refl)

name-head :
    (h : Hashes) (repository : Text) (pr : ℕ)
    → (r : Text) × (resource_name h repository pr ≡ b'd' ∷ r)
unfolding resource_name
name-head h repository pr =
    let (s, e) = stem-head h repository in
    rw e (rstrip-head is_dash b'd' (take 62 (s ++ str pr)) refl)

-- The name of a demo's resources is a DNS label, whatever the repository and the pull request.
pub resource_name-IsLabel :
    (h : Hashes) (repository : Text) (pr : ℕ) → IsLabel (resource_name h repository pr)
unfolding resource_name
resource_name-IsLabel h repository pr = record {
  short = omega (
    arith,
    length-rstrip is_dash (take 63 (resource_stem h repository ++ str pr)),
    length-take 63 (resource_stem h repository ++ str pr),
  );
  chars = rstrip-All is_dash is_slug_char _ (
      All-take _ 63 (resource_stem h repository ++ str pr) (
        All-append _ (resource_stem h repository) (str pr) (stem-Plain h repository)
          (str-Plain pr)));
  starts = rw ((name-head h repository pr).1) refl;
  ends = rstrip-LastFails is_dash _;
}

LastFails-digits :
    (s t : Text) → 1 ≤ length t → All (λ c. is_digit c ≡ true) t → LastFails is_dash (s ++ t)
LastFails-digits (b ∷ []) (c ∷ t) h k = LastFails-digits [] (c ∷ t) h k
LastFails-digits (b ∷ a ∷ s) t h k = LastFails-digits (a ∷ s) t h k
LastFails-digits (b ∷ []) [] h k = absurd (omega arith)
LastFails-digits [] (c ∷ []) h k = ground arith
LastFails-digits [] (c ∷ d ∷ t) h k = LastFails-digits [] (d ∷ t) (omega arith) k.1
LastFails-digits [] [] h k = absurd (omega arith)

-- Numbers of up to six digits are not cut.
resource_name_whole :
    (h : Hashes) (repository : Text) (pr : ℕ)
    → pr < 1_000_000
    → resource_name h repository pr ≡ resource_stem h repository ++ str pr
unfolding resource_name
resource_name_whole h repository pr small =
    rw
      (take_all 63 (resource_stem h repository ++ str pr) (
        omega (
          arith,
          length-append (resource_stem h repository) (str pr),
          length-stem h repository,
          length-str-le 5 pr small,
        )))
      (rstrip_whole is_dash (resource_stem h repository ++ str pr) (
        LastFails-digits (resource_stem h repository) (str pr) (omega (arith, le-length-str_one pr))
          (str_digits pr)))

-- Below a million, the pull requests of a repository have different names.
pub resource_name_injective :
    (h : Hashes) (repository : Text) (m n : ℕ)
    → m < 1_000_000
    → n < 1_000_000
    → resource_name h repository m ≡ resource_name h repository n
    → m ≡ n
resource_name_injective h repository m n hm hn e = str_injective m n (
    append_cancel_left (resource_stem h repository) (str m) (str n)
      (sym (resource_name_whole h repository m hm) ∙ e ∙ resource_name_whole h repository n hn))

-- From a million on, where the slug has 39 characters or more, the last digit of the number is
-- cut off: the name is that of another pull request, with the number divided by ten.
pub resource_name_cut :
    (h : Hashes) (repository : Text) (pr : ℕ)
    → 39 ≤ length (resource_slug repository)
    → 1_000_000 ≤ pr
    → resource_name h repository pr ≡ resource_name h repository (pr / 10)
unfolding resource_name
resource_name_cut h repository pr long big =
    let stem = resource_stem h repository in
    let enough : 63 ≤ length (stem ++ str (pr / 10)) = omega (
      arith,
      length-append stem (str (pr / 10)),
      length-stem h repository,
      le-length-str 5 (pr / 10) (omega arith),
    ) in
    rw (
      str_step pr (omega arith),
      ← append_assoc,
      take-append 63 (stem ++ str (pr / 10)) ((b'0' + pr % 10) ∷ []) enough,
    )

label-head :
    (c : ℕ) (s : Text) (pr : ℕ)
    → is_alnum (lower_char c) ≡ true
    → (r : Text) × (hostname_label (c ∷ s) pr ≡ lower_char c ∷ r)
unfolding hostname_label lower
label-head c s pr h =
    let (r, e) = slug-head (lower_char c) (lower s) h in
    (take 39 r ++ (text "-pr-" ++ str pr), rw e refl)

-- The label of a demo's host is a DNS label, where the project's name begins with a letter or a
-- digit and the number of the pull request has at most ten digits.
pub hostname_label-IsLabel :
    (c : ℕ) (s : Text) (pr : ℕ)
    → is_alnum (lower_char c) ≡ true
    → pr < 10_000_000_000
    → IsLabel (hostname_label (c ∷ s) pr)
hostname_label-IsLabel c s pr h small = record {
  short =
      unfold hostname_label text in
      omega (
        arith,
        length-append (take 40 (slug (lower (c ∷ s)))) (text "-pr-" ++ str pr),
        length-take 40 (slug (lower (c ∷ s))),
        length-str-le 9 pr small,
      );
  chars =
      unfold hostname_label in
      All-append _ (take 40 (slug (lower (c ∷ s)))) _
        (All-take _ 40 (slug (lower (c ∷ s))) (slug-All _))
        (All-append _ (text "-pr-") (str pr) dashes (str-Plain pr));
  starts = rw ((label-head c s pr h).1) h;
  ends =
      unfold hostname_label in
      rw (← append_assoc) (
        LastFails-digits (take 40 (slug (lower (c ∷ s))) ++ text "-pr-") (str pr)
          (le-length-str_one pr) (str_digits pr));
}
