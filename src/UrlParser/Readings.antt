-- ===== src/UrlParser/Readings.antt =====
-- What a single rule reads from a URL, stated by the shape of the host and the path.
use feed_reader.Common.{
  ℕ, zero, suc, ◌+◌, ◌-◌, ◌≡◌, ◌≢◌, ◌↔◌, inl, inr, refl, sym, ap, ap₂, ◌∙◌, Bool, true, false, not,
  ◌&&◌, none, some, [], ◌∷◌, ◌++◌, append_assoc, arith, if◌then◌else◌, ◌==◌, ==_iff, ==_refl,
  nat_eq, list_eq, Bool-cases,
}
use feed_reader.Common.Lists.{length, take, drop, includes, length-append}
use feed_reader.Common.Text.{Text, codes, starts_with, ends_with, before}
use feed_reader.UrlParser.{UrlParsingRule, ExtractedUserInfo, Url, by_subdomain, by_path}

-- The text is empty or begins with a slash.
abbrev pub AtSlash : Text → Type 0
AtSlash [] = Unit
AtSlash (c ∷ _) = c ≡ b'/'

-- The rule reads this user and domain from the URL: the user is a non-empty text with no dot in
-- front of "." and the pattern, the host's name, or a non-empty text with no slash between the
-- pattern with its slash and the next slash or the end.
pub data Reads (url : Url) (rule : UrlParsingRule) (info : ExtractedUserInfo) : Type 0 where
  subdomain :
      rule.rule_type ≡ codes "subdomain"
      → url.hostname ≡ info.user ++ b'.' ∷ rule.pattern
      → info.user ≢ []
      → includes info.user b'.' ≡ false
      → info.domain ≡ rule.pattern
      → Reads url rule info
  path :
      (rest : Text)
      → rule.rule_type ≡ codes "path"
      → url.hostname ++ url.pathname ≡ rule.pattern ++ b'/' ∷ (info.user ++ rest)
      → info.user ≢ []
      → includes info.user b'/' ≡ false
      → AtSlash rest
      → info.domain ≡ before b'/' rule.pattern
      → Reads url rule info

take-length-append : (s t : Text) → take (length s) (s ++ t) ≡ s
take-length-append [] [] = refl
take-length-append [] (_ ∷ _) = refl
take-length-append (c ∷ s) t = ap (◌∷◌ c) (take-length-append s t)

take-append : (s t : Text) → take (length (s ++ t) - length t) (s ++ t) ≡ s
take-append s t =
    rw (length-append s t) (ap (λ n. take n (s ++ t)) (omega arith) ∙ take-length-append s t)

drop-append : (s t : Text) → drop (length s) (s ++ t) ≡ t
drop-append [] t = refl
drop-append (c ∷ s) t = drop-append s t

take-drop : (n : ℕ) (s : Text) → take n s ++ drop n s ≡ s
take-drop zero s = refl
take-drop (suc n) [] = refl
take-drop (suc n) (c ∷ s) = ap (◌∷◌ c) (take-drop n s)

before-rest : (sep : ℕ) (s : Text) → s ≡ before sep s ++ drop (length (before sep s)) s
before-rest sep [] = refl
before-rest sep (c ∷ s) = elim (Bool-cases (c == sep)) [
  | inl e ↦ rw e
  | inr e ↦ rw e (ap (◌∷◌ c) (before-rest sep s))
]

rest-AtSlash : (s : Text) → AtSlash (drop (length (before b'/' s)) s)
rest-AtSlash [] = tt
rest-AtSlash (c ∷ s) = elim (Bool-cases (c == b'/')) [
  | inl e ↦ rw e ((==_iff c b'/').0 e)
  | inr e ↦ rw e (rest-AtSlash s)
]

before-includes : (sep : ℕ) (s : Text) → includes (before sep s) sep ≡ false
before-includes sep [] = refl
before-includes sep (c ∷ s) = ground (arith, before-includes sep s)

before-append :
    (s rest : Text) → includes s b'/' ≡ false → AtSlash rest → before b'/' (s ++ rest) ≡ s
before-append [] [] h a = refl
before-append [] (c ∷ rest) h a = ground arith
before-append (c ∷ s) rest h a = ground (arith, before-append s rest)

starts_with_iff : (s p : Text) → (starts_with s p ≡ true) ↔ ((rest : Text) × (s ≡ p ++ rest))
starts_with_iff s [] = (λ _. (s, refl), λ _. refl)
starts_with_iff [] (d ∷ p) = (λ e. cc, λ (rest, e). cc)
starts_with_iff (c ∷ s) (d ∷ p) =
    let (to, from) = starts_with_iff s p in
    (
      λ e.
          let (rest, same) = to (ground arith) in
          (rest, ap₂ ◌∷◌ ((==_iff c d).0 (ground arith)) same),
      λ (rest, same). ground (arith, ==_iff c d, from (rest, cc)),
    )

ends_with_iff : (s p : Text) → (ends_with s p ≡ true) ↔ ((first : Text) × (s ≡ first ++ p))
ends_with_iff s p = (
  λ e. (
    take (length s - length p) s,
    sym (take-drop (length s - length p) s)
        ∙ ap (λ r. take (length s - length p) s ++ r)
            ((==_iff (drop (length s - length p) s) p).0 (ground arith)),
  ),
  λ (first, same).
      rw (same, length-append first p)
        (rw
          (ap (λ n. drop n (first ++ p))
            (let e : length first + length p - length p ≡ length first = omega arith in e))
          (rw (drop-append first p) (rw (==_refl p) (ground arith)))),
)

nonempty_iff : (s : Text) → (not (s == []) ≡ true) ↔ (s ≢ [])
nonempty_iff [] = (λ e. cc, λ n. absurd (n refl))
nonempty_iff (c ∷ s) = (λ _ p. cc, λ _. refl)

-- A guarded answer.
guard_iff :
    (a b : Bool) (x info : ExtractedUserInfo)
    → ((if a && b then some x else none) ≡ some info) ↔ ((a ≡ true) × (b ≡ true) × (x ≡ info))
guard_iff a b x info = ground arith

and_iff : (a b : Bool) → (a && b ≡ true) ↔ ((a ≡ true) × (b ≡ true))
and_iff a b = ground arith

not_iff : (a : Bool) → (not a ≡ true) ↔ (a ≡ false)
not_iff a = ground arith

user_of :
    (hostname pattern user : Text)
    → hostname ≡ user ++ b'.' ∷ pattern
    → take (length hostname - (length pattern + 1)) hostname ≡ user
user_of hostname pattern user e = rw e (
    ap (λ n. take n (user ++ b'.' ∷ pattern))
      (let n : length (user ++ b'.' ∷ pattern) - (length pattern + 1)
            ≡ length (user ++ b'.' ∷ pattern) - length (b'.' ∷ pattern) =
          omega arith in
        n)
    ∙ take-append user (b'.' ∷ pattern))

module _ (hostname pattern : Text) (info : ExtractedUserInfo) where
  abbrev InSubdomain : Type 0
  InSubdomain =
      (hostname ≡ info.user ++ b'.' ∷ pattern)
      × (info.user ≢ [])
      × (includes info.user b'.' ≡ false)
      × (info.domain ≡ pattern)

  pub by_subdomain-reads : by_subdomain hostname pattern ≡ some info → InSubdomain
  unfolding by_subdomain
  by_subdomain-reads e =
      let user = take (length hostname - (length pattern + 1)) hostname in
      let (ends, fine, same) = (guard_iff _ _ _ info).0 e in
      let (first, split) = (ends_with_iff hostname (b'.' ∷ pattern)).0 ends in
      let is : user ≡ info.user = ap (λ r. r.user) same in
      let fine' = rw is at fine in
      let (some_user, no_dot) = (and_iff _ _).0 fine' in
      (
        split ∙ ap (λ u. u ++ b'.' ∷ pattern) (sym (user_of hostname pattern first split) ∙ is),
        (nonempty_iff info.user).0 some_user,
        (not_iff _).0 no_dot,
        sym (ap (λ r. r.domain) same),
      )

  pub by_subdomain-found : InSubdomain → by_subdomain hostname pattern ≡ some info
  unfolding by_subdomain
  by_subdomain-found (split, some_user, no_dot, domain) =
      let is = user_of hostname pattern info.user split in
      (guard_iff _ _ _ info).1 (
        (ends_with_iff hostname (b'.' ∷ pattern)).1 (info.user, split),
        rw is ((and_iff _ _).1 ((nonempty_iff info.user).1 some_user, (not_iff _).1 no_dot)),
        λ i. record { user = is i; domain = sym domain i },
      )

append_cons : (s t : Text) (c : ℕ) → (s ++ c ∷ []) ++ t ≡ s ++ c ∷ t
append_cons s t c = append_assoc s (c ∷ []) t

drop_past : (pattern rest : Text) → drop (length pattern + 1) (pattern ++ b'/' ∷ rest) ≡ rest
drop_past [] rest = refl
drop_past (c ∷ pattern) rest =
    ap (λ n. drop n (c ∷ (pattern ++ b'/' ∷ rest)))
      (let e : suc (length pattern) + 1 ≡ suc (length pattern + 1) = omega arith in e)
    ∙ drop_past pattern rest

module _ (full pattern : Text) (info : ExtractedUserInfo) where
  abbrev OnPath : Text → Type 0
  OnPath rest =
      (full ≡ pattern ++ b'/' ∷ (info.user ++ rest))
      × (info.user ≢ [])
      × (includes info.user b'/' ≡ false)
      × AtSlash rest
      × (info.domain ≡ before b'/' pattern)

  pub by_path-reads : by_path full pattern ≡ some info → (rest : Text) × OnPath rest
  unfolding by_path
  by_path-reads e =
      let (starts, fine, same) = (guard_iff _ _ _ info).0 e in
      let (remaining, split) = (starts_with_iff full (pattern ++ b'/' ∷ [])).0 starts in
      let split' : full ≡ pattern ++ b'/' ∷ remaining =
        split ∙ append_cons pattern remaining b'/' in
      let is : before b'/' remaining ≡ info.user =
        sym (ap (before b'/') (ap (drop (length pattern + 1)) split' ∙ drop_past pattern remaining))
        ∙ ap (λ r. r.user) same in
      let rest = drop (length (before b'/' remaining)) remaining in
      (
        rest,
        (
          split'
              ∙ ap (λ r. pattern ++ b'/' ∷ r) (before-rest b'/' remaining ∙ ap (λ u. u ++ rest) is),
          (nonempty_iff info.user).0 (rw (ap (λ r. r.user) same) at fine),
          rw is at (before-includes b'/' remaining),
          rest-AtSlash remaining,
          sym (ap (λ r. r.domain) same),
        ),
      )

  pub by_path-found : (rest : Text) → OnPath rest → by_path full pattern ≡ some info
  unfolding by_path
  by_path-found rest (split, some_user, no_slash, at, domain) =
      let remaining = info.user ++ rest in
      let is : before b'/' (drop (length pattern + 1) full) ≡ info.user =
        ap (before b'/') (ap (drop (length pattern + 1)) split ∙ drop_past pattern remaining)
        ∙ before-append info.user rest no_slash at in
      (guard_iff _ _ _ info).1 (
        (starts_with_iff full (pattern ++ b'/' ∷ [])).1
            (remaining, split ∙ sym (append_cons pattern remaining b'/')),
        rw is ((nonempty_iff info.user).1 some_user),
        λ i. record { user = is i; domain = sym domain i },
      )
