-- ===== src/Response.antt =====
-- src/ats_fcgi_client.cc: `fcgiProcessBuffer` and `convert_mime_hdr_to_string`, which turn the
-- records of a response into the bytes that go to the client.
-- The MIME parser, the header table and the version string are Traffic Server's, and a parameter.
pub mod Termination
pub mod Returning
pub mod Stream
pub mod Waiting
pub mod Turns
pub mod Chunk
use ats_fastcgi.Common.{
  ℕ, zero, suc, ◌+◌, ◌*◌, Bool, true, false, ◌&&◌, List, [], ◌∷◌, ◌++◌, Option, none, some, ltb,
  leb, ◌==◌, if◌then◌else◌, Bytes, equal, codes, c_string, length, take, Outcome, ok, fault, ◌>>=◌,
}
use ats_fastcgi.Protocol.{fcgi_stdout, fcgi_stderr, fcgi_end_request}
use ats_fastcgi.Record.{
  FcgiRecord, Status, process_again, process_done, process_err, state_done, fresh, in_state,
  process_record,
}

-- `TSParseResult`
pub data ParseResult : Type 0 where
  parse_error parse_done parse_ok parse_cont : ParseResult

-- What Traffic Server does with the text of a MIME header, its final NUL included.
pub record Mime : Type 0 where
  -- `TSMimeHdrParse`
  pub parse : Bytes → ParseResult
  -- the buffer blocks that `TSMimeHdrPrint` writes
  pub print : Bytes → List Bytes
  -- `Headers::isInitialized`
  pub is_initialized : Bytes → Bool
  -- `h.find("Status")`, and its values joined by ","
  pub status : Bytes → Option Bytes
  -- `HTTP_VERSION_STRINGS[HTTP_VERSION_1_1]`
  pub http_version_1_1 : Bytes

starts : Bytes → Bytes → Bool
starts [] bs = true
starts (x ∷ xs) [] = false
starts (x ∷ xs) (y ∷ ys) = x == y && starts xs ys

-- `start.find(end)`
find_from : ℕ → Bytes → Bytes → Option ℕ
unfolding starts
find_from i pat [] = if starts pat [] then some i else none
find_from i pat (b ∷ bs) = if starts pat (b ∷ bs) then some i else find_from (i + 1) pat bs

abbrev crlf : Bytes
crlf = 13 ∷ 10 ∷ []

-- `headerString`: the text up to the first blank line, or nothing.
unfoldable pub header_string : Bytes → Bytes
unfolding find_from
header_string start = elim (find_from 0 (crlf ++ crlf) start) [
  | none ↦ []
  | some found_pos ↦ take (found_pos + 4) start
]

-- `convert_mime_hdr_to_string`, without the NUL that it appends: the blocks up to an empty one.
unfoldable pub convert_mime_hdr_to_string : List Bytes → Bytes
convert_mime_hdr_to_string [] = []
convert_mime_hdr_to_string ([] ∷ blocks) = []
convert_mime_hdr_to_string ((b ∷ bs) ∷ blocks) = (b ∷ bs) ++ convert_mime_hdr_to_string blocks

abbrev default_status : Bytes
default_status = codes "HTTP/1.0 200 OK" ++ crlf

abbrev pub server_error : Bytes
server_error = codes "HTTP/1.0 500 Server Error" ++ (crlf ++ crlf)

-- The status line for a header that the parser has accepted.
parsed_status : Mime → Bytes → Bytes → Bytes
parsed_status mime buff text =
    if equal buff (c_string (convert_mime_hdr_to_string (mime.print text)))
    then (if mime.is_initialized text
        then elim (mime.status text) [
          | some value ↦ mime.http_version_1_1 ++ (codes " " ++ (c_string value ++ crlf))
          | none ↦ default_status
        ]
        else [])
    else default_status

-- What the first record adds in front of its own output.
unfoldable pub status_line : Mime → Bytes → Bytes
unfolding parsed_status c_string equal convert_mime_hdr_to_string header_string
status_line mime start =
    let buff = c_string (header_string start) in
    let text = buff ++ (0 ∷ []) in
    elim (mime.parse text) [
      | parse_error ↦ []
      | parse_done ↦ parsed_status mime buff text
      | parse_ok ↦ []
      | parse_cont ↦ []
    ]

-- `std::string(content, length)`
abbrev pub text_of : FcgiRecord → Bytes
text_of rec = take rec.length_ rec.content

-- The type of a record that ends the response.
unfoldable pub is_last : FcgiRecord → Bool
is_last rec = if rec.header.type_ == fcgi_stderr then true else rec.header.type_ == fcgi_end_request

-- What a complete record adds to the output.
unfoldable pub output_of : Mime → Bool → FcgiRecord → Bytes
unfolding status_line
output_of mime first_chunk rec =
    (if first_chunk then status_line mime (text_of rec) else [])
    ++ (if rec.header.type_ == fcgi_stdout
        then text_of rec
        else if rec.header.type_ == fcgi_stderr
        then server_error ++ text_of rec
        else [])

-- The members of `FCGIClientRequest` that the decoding changes.
pub record Decoder : Type 0 where
  pub first_chunk : Bool
  pub header_record : Option FcgiRecord

-- `if (!_headerRecord) _headerRecord = new FCGIRecordList;`
abbrev pub held : Option FcgiRecord → FcgiRecord
held none = fresh
held (some rec) = rec

-- One round of the loop: it returns, or goes on with the rest of the chunk.
pub data Turn : Type 0 where
  return : Bool → FcgiRecord → Bool → Bytes → Turn
  again : Bytes → FcgiRecord → Bool → Bytes → Turn

-- `if (beg_buf == end_buf) return false;`
unfoldable pub at_end : Bytes → FcgiRecord → Bool → Bytes → Turn
at_end [] rec first_chunk out = return false rec first_chunk out
at_end (b ∷ bs) rec first_chunk out = again (b ∷ bs) rec first_chunk out

-- A new record in place of a finished one.
unfoldable pub renew : FcgiRecord → FcgiRecord
unfolding in_state
renew rec = if in_state rec.state state_done then fresh else rec

-- What follows `fcgiProcessRecord` in the loop.
unfoldable pub after_record : Mime → Bool → Status × Bytes × FcgiRecord → Turn
unfolding at_end output_of is_last
after_record mime first_chunk (process_done, rest, rec) =
    if is_last rec
    then return true rec false (output_of mime first_chunk rec)
    else at_end rest rec false (output_of mime first_chunk rec)
after_record mime first_chunk (process_again, rest, rec) = at_end rest rec first_chunk []
after_record mime first_chunk (process_err, rest, rec) = at_end rest rec first_chunk []

-- `none` is that the fuel ran out.
abbrev pub Run : Type 0
Run = Option (Outcome (Decoder × Bytes × Bool))

-- The end of a round: `more` is the rest of the loop.
unfoldable pub after_turn : (Bytes → FcgiRecord → Bool → Bytes → Run) → Bytes → Outcome Turn → Run
after_turn more out fault = some fault
after_turn more out (ok (return b rec first' o)) =
    some (ok (record { first_chunk = first'; header_record = some rec }, out ++ o, b))
after_turn more out (ok (again rest rec first' o)) = more rest rec first' (out ++ o)

module _ (ts_malloc : ℕ → Bytes) (mime : Mime) where
  unfoldable pub turn : Bytes → FcgiRecord → Bool → Outcome Turn
  unfolding renew after_record
  turn bs rec first_chunk =
      process_record ts_malloc bs (renew rec) >>= λ done. ok (after_record mime first_chunk done)

  -- The `while (1)`, with fuel.
  unfoldable pub loop : ℕ → Bytes → FcgiRecord → Bool → Bytes → Run
  loop zero bs rec first_chunk out = none
  loop (suc fuel) bs rec first_chunk out = after_turn (loop fuel) out (turn bs rec first_chunk)

  -- `fcgiProcessBuffer`, `fcgiDecodeRecordChunk`: the bytes are appended to `output`.
  unfoldable pub process_buffer : Bytes → Decoder → Bytes → Run
  process_buffer bs d output =
      loop (2 * length bs + 2) bs (held d.header_record) d.first_chunk output
