-- ===== src/ErrorToasts.antt =====
-- lib/query.ts: which errors of queries and mutations show a toast.
use feed_reader.Common.{
  String, ◌≡◌, refl, Bool, true, false, not, ◌||◌, Option, none, some, arith, if◌then◌else◌, ◌==◌,
  string_eq, Bool-cases, inl, inr,
}
use feed_reader.Toasts.{ToastState, failure, show}

-- A thrown value: an object, of the classes that the interceptor looks for, with the text of its
-- `code` if it has one and the mark; or a value that is no object.
pub record ErrorObject : Type 0 where
  pub is_type_error : Bool
  pub is_dom_exception : Bool
  pub code : Option String
  pub eligible : Bool

pub data Thrown : Type 0 where
  object : ErrorObject → Thrown
  no_object : Thrown

unfoldable pub mark_as_toast_eligible : Thrown → Thrown
mark_as_toast_eligible (object e) = object (record e { eligible = true })
mark_as_toast_eligible no_object = no_object

unfoldable pub is_toast_eligible : Thrown → Bool
is_toast_eligible (object e) = e.eligible
is_toast_eligible no_object = false

unfoldable pub is_network_error : Thrown → Bool
is_network_error (object e) = e.is_type_error || e.is_dom_exception
is_network_error no_object = false

unfoldable pub code_of : Thrown → String
code_of (object e) = elim e.code [ none ↦ "" | some code ↦ code ]
code_of no_object = ""

-- What `errorInterceptor` throws on, for what the request throws.
unfoldable pub error_interceptor : Thrown → Thrown
unfolding is_network_error code_of mark_as_toast_eligible
error_interceptor err =
    if (code_of err == "unavailable") || is_network_error err
    then mark_as_toast_eligible err
    else err

abbrev pub default_error_message : String
default_error_message = "An error occurred. Please try again."

-- `onError` of the query cache: `id` is the toast's, `fetching` whether the query's fetch status is
-- "fetching", with a further attempt to come.
unfoldable pub on_query_error : String → Thrown → Bool → ToastState → ToastState
unfolding is_toast_eligible show
on_query_error id err fetching s =
    if not (is_toast_eligible err)
    then s
    else if fetching
    then s
    else show id default_error_message failure s

-- `onError` of the mutation cache.
unfoldable pub on_mutation_error : String → Thrown → ToastState → ToastState
unfolding is_toast_eligible show
on_mutation_error id err s =
    if not (is_toast_eligible err) then s else show id default_error_message failure s

-- An error that nothing has marked yet, and that the interceptor marks.
abbrev pub is_outage : Thrown → Bool
is_outage (object e) =
    (code_of (object e) == "unavailable") || (e.is_type_error || e.is_dom_exception)
is_outage no_object = false

abbrev pub is_unmarked : Thrown → Bool
is_unmarked (object e) = not e.eligible
is_unmarked no_object = true

-- The interceptor, which nothing in the program calls, would mark outages.
pub is_toast_eligible-error_interceptor :
    (err : Thrown)
    → is_unmarked err ≡ true
    → is_toast_eligible (error_interceptor err) ≡ is_outage err
unfolding is_toast_eligible error_interceptor is_network_error code_of mark_as_toast_eligible
is_toast_eligible-error_interceptor no_object h = refl
is_toast_eligible-error_interceptor (object e) h = elim (Bool-cases (is_outage (object e))) [
  | inl g ↦ rw g refl
  | inr g ↦ rw g (ground (arith, h))
]

-- An error that nothing has marked shows no toast, whatever it is.
pub on_query_error-unmarked :
    (id : String) (err : Thrown) (fetching : Bool) (s : ToastState)
    → is_unmarked err ≡ true
    → on_query_error id err fetching s ≡ s
unfolding on_query_error is_toast_eligible
on_query_error-unmarked id no_object fetching s h = refl
on_query_error-unmarked id (object e) fetching s h =
    let plain : e.eligible ≡ false = ground (arith, h) in rw plain refl
