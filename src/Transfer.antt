-- ===== src/Transfer.antt =====
-- src/server.cc: `interceptTransferData`, which decodes the buffer blocks of one read event, and the
-- `TS_EVENT_VCONN_READ_READY` events of one response. A block is the bytes that are left to read in it.
pub mod Delivery
use ats_fastcgi.Common.{
  ℕ, Bool, true, false, List, [], ◌∷◌, ◌++◌, Option, none, some, Bytes, Outcome, ok, fault,
}
use ats_fastcgi.Response.{Mime, Decoder, Run, process_buffer}

-- Goes on with the results of a run that ended well.
abbrev pub and_then : Run → (Decoder → Bytes → Bool → Run) → Run
and_then none f = none
and_then (some fault) f = some fault
and_then (some (ok (d, output, status))) f = f d output status

module _ (ts_malloc : ℕ → Bytes) (mime : Mime) where
  -- The loop over the blocks; the status is that of the last block with bytes in it.
  unfoldable pub transfer_blocks : List Bytes → Decoder → Bytes → Bool → Run
  transfer_blocks [] d output response_status = some (ok (d, output, response_status))
  transfer_blocks ([] ∷ blocks) d output response_status =
      transfer_blocks blocks d output response_status
  transfer_blocks ((b ∷ bs) ∷ blocks) d output response_status =
      and_then (process_buffer ts_malloc mime (b ∷ bs) d output) (transfer_blocks blocks)

  -- `interceptTransferData`: the bytes that it gives the client, and its result.
  unfoldable pub intercept_transfer_data : List Bytes → Decoder → Run
  unfolding transfer_blocks
  intercept_transfer_data blocks d = transfer_blocks blocks d [] false

  -- The read events of a connection, up to the one that completes the response.
  unfoldable pub read_events : List (List Bytes) → Decoder → Bytes → Run
  unfolding intercept_transfer_data
  read_events [] d client = some (ok (d, client, false))
  read_events (blocks ∷ events) d client =
      and_then (intercept_transfer_data blocks d) λ d' sent status. elim status [
        | true ↦ some (ok (d', client ++ sent, true))
        | false ↦ read_events events d' (client ++ sent)
      ]
