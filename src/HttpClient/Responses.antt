-- ===== src/HttpClient/Responses.antt =====
-- What responses come to, and the redirect of a user who is not signed in.
use feed_reader.Common.{
  ℕ, ◌≡◌, refl, ap, ◌∙◌, ◌↔◌, Option-cases, Bool, true, false, Option, none, some, List, [], ◌∷◌,
  if◌then◌else◌, ◌==◌, nat_eq, list_eq, string_eq, Bool-cases, inl, inr,
}
use feed_reader.Common.Lists.{any}
use feed_reader.Common.Text.{Text}
use feed_reader.HttpClient.{
  Response, answer, Json, client, checked, parse_json, reload, assign_root, RedirectState,
  redirect_on_unauthorized,
}

-- The calls whose responses come in, one after the other, in a window at `path`.
abbrev pub calls :
    (Text → Option Json) → Text → List (Option Response) → RedirectState → RedirectState
calls parse path [] s = s
calls parse path (r ∷ responses) s =
    calls parse path responses
      (if (client parse r).1 then redirect_on_unauthorized true path s else s)

abbrev pub is_unauthorized : Option Response → Bool
is_unauthorized none = false
is_unauthorized (some r) = r.status == 401

abbrev pub signed_in : RedirectState
signed_in = record { redirecting = false; navigations = [] }

module _ (parse : Text → Option Json) (path : Text) where
  client-unauthorized : (r : Option Response) → (client parse r).1 ≡ is_unauthorized r
  unfolding client
  client-unauthorized none = refl
  client-unauthorized (some r) = elim (Bool-cases (r.status == 401)) [
    | inl e ↦ rw e refl
    | inr e ↦ rw e refl
  ]

  calls-cons :
      (r : Option Response) (responses : List (Option Response)) (s : RedirectState)
      → calls parse path (r ∷ responses) s
        ≡ calls parse path responses
            (if is_unauthorized r then redirect_on_unauthorized true path s else s)
  calls-cons r responses s =
      ap
        (λ (b : Bool).
          calls parse path responses (if b then redirect_on_unauthorized true path s else s))
        (client-unauthorized r)

  redirect-guarded :
      (s : RedirectState) → s.redirecting ≡ true → redirect_on_unauthorized true path s ≡ s
  unfolding redirect_on_unauthorized
  redirect-guarded s h = rw h refl

  calls-redirecting :
      (responses : List (Option Response)) (s : RedirectState)
      → s.redirecting ≡ true
      → calls parse path responses s ≡ s
  calls-redirecting [] s h = refl
  calls-redirecting (r ∷ responses) s h = elim (Bool-cases (client parse r).1) [
    | inl e ↦ rw (e, redirect-guarded s h) (calls-redirecting responses s h)
    | inr e ↦ rw e (calls-redirecting responses s h)
  ]

  -- However many calls find the user signed out, the window navigates once: it reloads at the root
  -- and goes to the root from anywhere else. If none does, it stays where it is.
  pub calls_lem :
      (responses : List (Option Response))
      → (calls parse path responses signed_in).navigations ≡ (
          if any responses is_unauthorized
          then (if path == b'/' ∷ [] then reload else assign_root) ∷ []
          else [])
  unfolding redirect_on_unauthorized
  calls_lem [] = refl
  calls_lem (r ∷ responses) =
      ap (λ (s : RedirectState). s.navigations) (calls-cons r responses signed_in)
      ∙ elim (Bool-cases (is_unauthorized r)) [
        | inl e ↦ rw e (
            ap (λ (s : RedirectState). s.navigations)
              (calls-redirecting responses (redirect_on_unauthorized true path signed_in) refl))
        | inr e ↦ rw e (calls_lem responses)
      ]

checked_answer :
    (ok : Bool) (status other : ℕ) (value found : Option Json)
    → checked ok status found ≡ answer value other
    → (ok ≡ true) × (found ≡ value) × (status ≡ other)
unfolding checked
checked_answer true status other value found h = (refl, cc, cc)
checked_answer false status other value found h = cc

-- A call gives data exactly for a response that is ok, and not the refusal of a user who is not
-- signed in, and whose body is empty or parses: the data are the parsed body, if there is one.
pub client_iff :
    (parse : Text → Option Json) (r : Response) (value : Option Json) (status : ℕ)
    → ((client parse (some r)).0 ≡ answer value status) ↔ (
        ((r.status == 401) ≡ false)
        × (r.ok ≡ true)
        × (parse_json parse r.body ≡ some value)
        × (r.status ≡ status))
unfolding client
client_iff parse r value status = (
  λ h. elim (Bool-cases (r.status == 401)) [
    | inl e ↦ cc (rw e at h)
    | inr e ↦ elim (Option-cases (parse_json parse r.body)) [
      | inl f ↦ cc (rw (e, f) at h)
      | inr (found, f) ↦
          let (ok, same, statuses) =
            checked_answer r.ok r.status status value found (rw (e, f) at h) in
          (e, ok, f ∙ ap some same, statuses)
    ]
  ],
  λ (e, ok, f, same). rw (e, f, ok, same, checked) refl,
)
