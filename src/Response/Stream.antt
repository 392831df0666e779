-- ===== src/Response/Stream.antt =====
-- A whole response, as a list of records, and its output, described with no state machine.
use ats_fastcgi.Common.{
  ℕ, ◌≤◌, ◌≡◌, ◌≢◌, refl, sym, ap, ◌∙◌, Bool, true, false, List, Bytes, length, take_all, [], ◌∷◌,
  ◌++◌, arith, append_assoc, length-pos, ◌==◌, if◌then◌else◌,
}
use ats_fastcgi.Protocol.{fcgi_stdout, fcgi_stderr, fcgi_end_request}
use ats_fastcgi.Record.{FcgiRecord, fresh, in_state, value}
use ats_fastcgi.Record.Message.{Message, IsMessage, Holds, body, encode}
use ats_fastcgi.Record.Pending.{Pending, awaits, in_padding, in_header, at_content, in_content}
use ats_fastcgi.Response.{Mime, status_line, server_error, text_of, output_of, is_last, renew}

abbrev pub encode_all : List Message → Bytes
encode_all [] = []
encode_all (m ∷ ms) = encode m ++ encode_all ms

-- A record after which the plugin reads no further.
abbrev pub is_final : Message → Bool
is_final m = if m.header.type_ == fcgi_stderr then true else m.header.type_ == fcgi_end_request

-- Records that end with the first final one. No padding is longer than `n` bytes.
pub data IsResponse (n : ℕ) : List Message → Type 0 where
  final :
      {m : Message}
      → IsMessage m
      → length m.padding ≤ n
      → is_final m ≡ true
      → body m ≢ []
      → IsResponse n (m ∷ [])
  more :
      {m : Message} {ms : List Message}
      → IsMessage m
      → length m.padding ≤ n
      → is_final m ≡ false
      → IsResponse n ms
      → IsResponse n (m ∷ ms)

pub head_valid : {n : ℕ} {m : Message} {ms : List Message} → IsResponse n (m ∷ ms) → IsMessage m
head_valid (final v p f b) = v
head_valid (more v p f r) = v

pub head_padding :
    {n : ℕ} {m : Message} {ms : List Message} → IsResponse n (m ∷ ms) → length m.padding ≤ n
head_padding (final v p f b) = p
head_padding (more v p f r) = p

-- The text that one record gives the client.
abbrev pub text : Message → Bytes
text m =
    if m.header.type_ == fcgi_stdout
    then m.content
    else if m.header.type_ == fcgi_stderr
    then server_error ++ m.content
    else []

-- The client's bytes: the status line that the first record's header asks for, and the texts.
abbrev pub output : Mime → Bool → Message → Bytes
output mime first m = (if first then status_line mime m.content else []) ++ text m

abbrev pub outputs : Mime → Bool → List Message → Bytes
outputs mime first [] = []
outputs mime first (m ∷ ms) = output mime first m ++ outputs mime false ms

-- `first_chunk` after some records.
abbrev pub first_after : Bool → List Message → Bool
first_after first [] = first
first_after first (m ∷ ms) = false

pub first_after-false : (ms : List Message) → first_after false ms ≡ false
first_after-false [] = refl
first_after-false (m ∷ ms) = refl

pub first_after-append :
    (first : Bool) (ms ns : List Message)
    → first_after first (ms ++ ns) ≡ first_after (first_after first ms) ns
first_after-append first [] ns = refl
first_after-append first (m ∷ ms) ns = sym (first_after-false ns)

pub outputs-append :
    (mime : Mime) (first : Bool) (ms ns : List Message)
    → outputs mime first (ms ++ ns)
      ≡ outputs mime first ms ++ outputs mime (first_after first ms) ns
outputs-append mime first [] ns = refl
outputs-append mime first (m ∷ ms) ns =
    ap (◌++◌ (output mime first m)) (
      outputs-append mime false ms ns
      ∙ ap (λ b. outputs mime false ms ++ outputs mime b ns) (first_after-false ms))
    ∙ sym (append_assoc (output mime first m) (outputs mime false ms) (outputs mime false ns))

pub Holds-output :
    (mime : Mime) (first : Bool) (m : Message) (rec : FcgiRecord)
    → Holds m rec
    → (output_of mime first rec ≡ output mime first m) × (is_last rec ≡ is_final m)
unfolding output_of is_last
Holds-output mime first m rec h =
    let whole : text_of rec ≡ m.content =
      rw (h.length_eq, h.content_eq) (take_all (length m.content) m.content (omega arith)) in
    (rw (whole, h.header_eq), rw h.header_eq)

pub renew-Holds : (m : Message) (rec : FcgiRecord) → Holds m rec → renew rec ≡ fresh
unfolding renew in_state value
renew-Holds m rec h = rw h.state_eq

pub renew-fresh : renew fresh ≡ fresh
unfolding renew in_state value
renew-fresh = refl

renew_id : (rec : FcgiRecord) → value rec.state ≢ 11 → renew rec ≡ rec
unfolding renew
renew_id rec h = ground arith

-- A record in the middle is not finished.
pub renew-Pending : (m : Message) (t : Bytes) (rec : FcgiRecord) → Pending m t rec → renew rec ≡ rec
unfolding value
renew-Pending m t rec (awaits (in_header hs n val f d)) =
    renew_id rec (omega (arith, length-pos hs n))
renew-Pending m t rec (awaits (at_content r d)) = renew_id rec (rw r (omega arith))
renew-Pending m t rec (awaits (in_content front left c l s d)) =
    renew_id rec (rw s.state_eq (omega arith))
renew-Pending m t rec (in_padding skipped e n s) = renew_id rec (rw s.state_eq (omega arith))
