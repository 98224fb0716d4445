-- ===== src/Logging/Safe.antt =====
-- What reaches the logs of the gateway.
use aws_mcp_gateway.Base.{
  ◌≡◌, ◌≢◌, refl, sym, ap, inl, inr, true, false, String, Memᴰ, ◌<>◌, ◌==◌, string_eq,
  string_eq_iff, Bool-cases,
}
use aws_mcp_gateway.Js.{undefined, text, Fields, end, field, get}
use aws_mcp_gateway.Profiles.Patterns.{any_case, match_items, test}
use aws_mcp_gateway.Logging.Words.{ReadsAs, is_forbidden_key-ReadsAs}
use aws_mcp_gateway.Logging.Entries.{AreDistinct, forbidden-add_entries, allowed-add_entries}
use aws_mcp_gateway.Logging.Short.{IsShort, sanitize_value-IsShort}
use aws_mcp_gateway.Logging.{forbidden_words, is_forbidden_key, sanitize_value, sanitize_log_event}

-- `service` is no forbidden name
service_allowed : is_forbidden_key "service" ≡ false
unfolding is_forbidden_key test any_case match_items
service_allowed = refl

not_service : (key : String) → is_forbidden_key key ≡ true → ("service" == key) ≡ false
not_service key forbidden = elim (Bool-cases ("service" == key)) [
  | inl same ↦
      absurd (
        cc (service_allowed, ap is_forbidden_key ((string_eq_iff "service" key).0 same), forbidden))
  | inr other ↦ other
]

is_service_false : (key : String) → key ≢ "service" → ("service" == key) ≡ false
is_service_false key h = elim (Bool-cases ("service" == key)) [
  | inl same ↦ absurd (h (sym ((string_eq_iff "service" key).0 same)))
  | inr other ↦ other
]

-- No property is logged whose name has one of the forbidden words in it, in either case of its letters.
pub sanitize_log_event-forbidden :
    (event : Fields) (word u x v : String)
    → Memᴰ word forbidden_words
    → ReadsAs x word
    → get (u <> x <> v) (sanitize_log_event event) ≡ undefined
unfolding sanitize_log_event get
sanitize_log_event-forbidden event word u x v m r =
    let forbidden = is_forbidden_key-ReadsAs u x v word m r in
    forbidden-add_entries (u <> x <> v) event _ forbidden (rw (not_service (u <> x <> v) forbidden))

-- A property of any other name, but `service`, is logged with its value, cut to at most 201 units or to 50
-- texts of so many, if that is a text, a number, a truth value or an array, and else not at all.
pub sanitize_log_event_lem :
    (event : Fields) (key : String)
    → AreDistinct event
    → key ≢ "service"
    → is_forbidden_key key ≡ false
    → (get key (sanitize_log_event event) ≡ sanitize_value (get key event))
      × IsShort (get key (sanitize_log_event event))
unfolding sanitize_log_event get
sanitize_log_event_lem event key d other allowed =
    let e =
      allowed-add_entries key event (field "service" (text "aws-mcp-gateway") end) d allowed
        (rw (is_service_false key other)) in
    (e, rw e (sanitize_value-IsShort (get key event)))
