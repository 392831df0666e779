-- ===== src/Transfer/Delivery.antt =====
-- A response that comes in any blocks, over any number of read events, reaches the client whole.
use ats_fastcgi.Common.{
  ℕ, ◌≤◌, ◌≡◌, ◌≢◌, ◌⊎◌, inl, inr, refl, sym, ap, ◌∙◌, Bool, true, false, List, [], ◌∷◌, ◌++◌, none,
  some, Bytes, ok, length, append_assoc, append-nil, append-eq-nil, append-eq-nil_right,
}
use ats_fastcgi.Record.{fresh, FcgiRecord}
use ats_fastcgi.Record.Message.{Message, body, encode}
use ats_fastcgi.Record.Pending.{
  Pending, awaits, in_padding, in_header, at_content, in_content, Awaits-fresh,
}
use ats_fastcgi.Response.{Mime, Decoder, Run, held, process_buffer, renew}
use ats_fastcgi.Response.Stream.{
  renew-fresh, IsResponse, final, more, encode_all, outputs, outputs-append, first_after,
  first_after-append,
}
use ats_fastcgi.Response.Waiting.{Waiting, waiting, Result, ended, going}
use ats_fastcgi.Response.Chunk.{loop_chunk}
use ats_fastcgi.Response.Termination.{rounds-lt}
use ats_fastcgi.Transfer.{transfer_blocks, read_events}

abbrev pub join : List Bytes → Bytes
join [] = []
join (b ∷ blocks) = b ++ join blocks

-- A block is empty, or has at least `n` bytes.
abbrev pub AllLong : ℕ → List Bytes → Type 0
AllLong n [] = Unit {0}
AllLong n (b ∷ blocks) = ((b ≡ []) ⊎ (n ≤ length b)) × AllLong n blocks

abbrev pub join_all : List (List Bytes) → Bytes
join_all [] = []
join_all (blocks ∷ events) = join blocks ++ join_all events

abbrev pub AllEventsLong : ℕ → List (List Bytes) → Type 0
AllEventsLong n [] = Unit {0}
AllEventsLong n (blocks ∷ events) = AllLong n blocks × AllEventsLong n events

-- `FCGIClientRequest`, new.
abbrev pub new_decoder : Decoder
new_decoder = record { first_chunk = true; header_record = none }

-- Where a run stands in the response `ms` after some of its bytes, with `todo` still to come.
data Progress (mime : Mime) (first : Bool) (out todo : Bytes) (ms : List Message) (r : Run)
    : Type 0 where
  complete :
      (d : Decoder)
      → todo ≡ []
      → r ≡ some (ok (d, out ++ outputs mime first ms, true))
      → Progress mime first out todo ms r
  partial :
      (done rest : List Message) (d : Decoder)
      → ms ≡ done ++ rest
      → d.first_chunk ≡ first_after first done
      → Waiting todo rest (held d.header_record)
      → r ≡ some (ok (d, out ++ outputs mime first done, false))
      → Progress mime first out todo ms r

IsResponse-suffix :
    (n : ℕ) (done rest : List Message) → rest ≢ [] → IsResponse n (done ++ rest) → IsResponse n rest
IsResponse-suffix n [] rest h r = r
IsResponse-suffix n (d ∷ []) rest h (final v p f b) = absurd (h refl)
IsResponse-suffix n (d ∷ []) rest h (more v p f r) = r
IsResponse-suffix n (d ∷ e ∷ done) rest h (more v p f r) = IsResponse-suffix n (e ∷ done) rest h r

Progress-append :
    (mime : Mime) (first : Bool) (out todo : Bytes) (done rest ms : List Message) (d : Decoder)
    (r : Run)
    → ms ≡ done ++ rest
    → d.first_chunk ≡ first_after first done
    → Progress mime d.first_chunk (out ++ outputs mime first done) todo rest r
    → Progress mime first out todo ms r
Progress-append mime first out todo done rest ms d r s o (complete d' n e) =
    complete d' n (e ∙ ap (λ x. some (ok (d', x, true))) whole)
  where
    whole :
        (out ++ outputs mime first done) ++ outputs mime d.first_chunk rest
        ≡ out ++ outputs mime first ms
    whole = rw (s, outputs-append mime first done rest, o) (append_assoc out _ _)
Progress-append mime first out todo done rest ms d r s o (partial done' rest' d' s' o' w e) =
    partial (done ++ done') rest' d' (s ∙ ap (◌++◌ done) s' ∙ sym (append_assoc done done' rest'))
      (o' ∙ ap (λ b. first_after b done') o ∙ sym (first_after-append first done done')) w
      (e ∙ ap (λ x. some (ok (d', x, false))) whole)
  where
    whole :
        (out ++ outputs mime first done) ++ outputs mime d.first_chunk done'
        ≡ out ++ outputs mime first (done ++ done')
    whole = rw (outputs-append mime first done done', o) (append_assoc out _ _)

Waiting-ne-nil :
    (todo : Bytes) (ms : List Message) (rec : FcgiRecord) → Waiting todo ms rec → ms ≢ []
Waiting-ne-nil todo ms rec (waiting m rest t e d p) n = absurd (cc)

module _ (ts_malloc : ℕ → Bytes) (malloc_size : (n : ℕ) → length (ts_malloc n) ≡ n) (mime : Mime)
    (n : ℕ) where
  process_buffer-Progress :
      (bs todo : Bytes) (ms : List Message) (d : Decoder) (out : Bytes)
      → IsResponse n ms
      → bs ≢ []
      → n ≤ length bs
      → Waiting (bs ++ todo) ms (held d.header_record)
      → Progress mime d.first_chunk out todo ms (process_buffer ts_malloc mime bs d out)
  unfolding process_buffer
  process_buffer-Progress bs todo ms d out r h k w = of_Result (
      loop_chunk ts_malloc malloc_size mime n _ bs todo ms (held d.header_record) d.first_chunk out
        r h w (λ _. k) (rounds-lt ts_malloc mime bs (held d.header_record)))
    where
      of_Result :
          {run : Run}
          → Result mime d.first_chunk out todo ms run
          → Progress mime d.first_chunk out todo ms run
      of_Result (ended rec e f) = complete _ e f
      of_Result (going done rest first' rec s o v f) = partial done rest _ s o v f

  -- No bytes are left for the other blocks.
  transfer_blocks-empty :
      (blocks : List Bytes) (d : Decoder) (out : Bytes) (status : Bool)
      → join blocks ≡ []
      → transfer_blocks ts_malloc mime blocks d out status ≡ some (ok (d, out, status))
  unfolding transfer_blocks
  transfer_blocks-empty [] d out status e = refl
  transfer_blocks-empty ([] ∷ blocks) d out status e = transfer_blocks-empty blocks d out status e
  transfer_blocks-empty ((b ∷ bs) ∷ blocks) d out status e = absurd (cc)

  transfer_blocks-Progress :
      (blocks : List Bytes) (todo : Bytes) (ms : List Message) (d : Decoder) (out : Bytes)
      → AllLong n blocks
      → IsResponse n ms
      → Waiting (join blocks ++ todo) ms (held d.header_record)
      → Progress mime d.first_chunk out todo ms (transfer_blocks ts_malloc mime blocks d out false)
  unfolding transfer_blocks
  transfer_blocks-Progress [] todo ms d out l r w = partial [] ms d refl refl w (rw append-nil)
  transfer_blocks-Progress ([] ∷ blocks) todo ms d out l r w =
      transfer_blocks-Progress blocks todo ms d out l.1 r w
  transfer_blocks-Progress ((b ∷ bs) ∷ blocks) todo ms d out (inl e, l) r w = absurd (cc)
  transfer_blocks-Progress ((b ∷ bs) ∷ blocks) todo ms d out (inr k, l) r w =
      elim (process_buffer-Progress (b ∷ bs) (join blocks ++ todo) ms d out r (λ e. cc) k
        (rw (append_assoc (b ∷ bs) (join blocks) todo) at w)) [
          | complete d' e f ↦ rw f (
              complete d' (append-eq-nil_right (join blocks) todo e)
                (transfer_blocks-empty blocks d' _ true (append-eq-nil (join blocks) todo e)))
          | partial done rest d' s o v f ↦ rw f (
              Progress-append mime d.first_chunk out todo done rest ms d' _ s o (
                transfer_blocks-Progress blocks todo rest d' _ l
                  (IsResponse-suffix n done rest (Waiting-ne-nil _ rest _ v) (rw s at r)) v))
        ]

  read_events-Progress :
      (events : List (List Bytes)) (todo : Bytes) (ms : List Message) (d : Decoder) (client : Bytes)
      → AllEventsLong n events
      → IsResponse n ms
      → Waiting (join_all events ++ todo) ms (held d.header_record)
      → Progress mime d.first_chunk client todo ms (read_events ts_malloc mime events d client)
  unfolding read_events
  read_events-Progress [] todo ms d client l r w = partial [] ms d refl refl w (rw append-nil)
  read_events-Progress (blocks ∷ events) todo ms d client l r w =
      elim (transfer_blocks-Progress blocks (join_all events ++ todo) ms d [] l.0 r
        (rw (append_assoc (join blocks) (join_all events) todo) at w)) [
          | complete d' e f ↦ rw f (complete d' (append-eq-nil_right (join_all events) todo e) refl)
          | partial done rest d' s o v f ↦ rw f (
              Progress-append mime d.first_chunk client todo done rest ms d' _ s o (
                read_events-Progress events todo rest d' _ l.1
                  (IsResponse-suffix n done rest (Waiting-ne-nil _ rest _ v) (rw s at r)) v))
        ]

  Pending-ne-nil : (m : Message) (rec : FcgiRecord) → body m ≢ [] → Pending m [] rec → ⊥
  Pending-ne-nil m rec b (awaits (in_header hs h val f d)) = h (append-eq-nil hs (body m) (sym d))
  Pending-ne-nil m rec b (awaits (at_content r d)) = b (sym d)
  Pending-ne-nil m rec b (awaits (in_content front left c h s d)) =
      h (append-eq-nil left m.padding (sym d))
  Pending-ne-nil m rec b (in_padding skipped e h s) = h refl

  -- A response that is not complete has bytes to come.
  Waiting-todo : (ms : List Message) (rec : FcgiRecord) → IsResponse n ms → Waiting [] ms rec → ⊥
  Waiting-todo [] rec r w = elim r [ ]
  Waiting-todo (m ∷ ms) rec (final v p f b) (waiting m' rest t e d q) =
      let same : m ≡ m' = cc in
      let none_left : t ≡ [] = append-eq-nil t (encode_all rest) (sym d) in
      Pending-ne-nil m' (renew rec) (λ x. b (ap body same ∙ x)) (rw none_left at q)
  Waiting-todo (m ∷ []) rec (more v p f r) w = elim r [ ]
  Waiting-todo (m ∷ m2 ∷ ms) rec (more v p f r) (waiting m' rest t e d q) =
      let same : m2 ∷ ms ≡ rest = cc in
      let none_left : encode_all (m2 ∷ ms) ≡ [] =
        ap encode_all same ∙ append-eq-nil_right t (encode_all rest) (sym d) in
      absurd (cc)

-- A complete response, cut into buffer blocks and read events in any way, gives the client the status
-- line for its first record and the texts of all its records in order, and its last event completes
-- it, with no access outside a buffer. Each block is empty or at least as long as the longest
-- padding; the response is records that end with the first `FCGI_STDERR` or `FCGI_END_REQUEST`, and
-- that record has content or padding; `TSmalloc n` gives `n` bytes.
pub read_events-outputs :
    (ts_malloc : ℕ → Bytes) (malloc_size : (n : ℕ) → length (ts_malloc n) ≡ n) (mime : Mime) (n : ℕ)
    (events : List (List Bytes)) (ms : List Message)
    → IsResponse n ms
    → AllEventsLong n events
    → join_all events ≡ encode_all ms
    → (d : Decoder) × (read_events ts_malloc mime events new_decoder []
        ≡ some (ok (d, outputs mime true ms, true)))
read_events-outputs ts_malloc malloc_size mime n events [] r l e = elim r [ ]
read_events-outputs ts_malloc malloc_size mime n events (m ∷ ms) r l e =
    elim (read_events-Progress ts_malloc malloc_size mime n events [] (m ∷ ms) new_decoder [] l r
      (waiting m ms (encode m) refl (append-nil _ ∙ e) start)) [
        | complete d _ f ↦ (d, f)
        | partial done rest d s o v f ↦ absurd (
            Waiting-todo ts_malloc malloc_size mime n rest _
              (IsResponse-suffix n done rest (Waiting-ne-nil _ rest _ v) (rw s at r)) v)
      ]
  where
    start : Pending m (encode m) (renew fresh)
    start = rw (renew-fresh) (awaits (Awaits-fresh m))
