-- ===== src/Request/Bounds.antt =====
-- Where the serialised bytes go: each write lands behind the last, the bytes before it stay, and a
-- write past the end of the buffer is a fault.
use ats_fastcgi.Common.{
  ℕ, ◌+◌, ◌≤◌, ◌<◌, ◌≡◌, refl, sym, ap, ◌∙◌, [], ◌∷◌, ◌++◌, Bytes, length, take, Outcome, ok, fault,
  ◌>>=◌, arith, inl, inr, le-or-lt, memcpy_extends, memcpy_overrun, length-append, append_assoc,
  append-nil, take-take_le, take_left, ◌%◌, ◌^◌,
}
use ats_fastcgi.StringMap.{StringMap}
use ats_fastcgi.Request.{
  ClientState, serialize, serialize_next, name_value_bytes, measure_params, write_params,
}

-- The buffer starts with the bytes `written`, and `pBuffInc` stands behind them.
pub record Written (start : ClientState) (written : Bytes) (st : ClientState) : Type 0 where
  pub same_id : st.request_id ≡ start.request_id
  pub same_headers : st.request_headers ≡ start.request_headers
  pub same_size : length st.buff ≡ length start.buff
  pub offset : st.p_buff_inc ≡ length written
  pub front : take (length written) st.buff ≡ written

-- A run writes exactly the bytes `written`, or faults since they do not fit.
pub data Writes (start : ClientState) (written : Bytes) (o : Outcome ClientState) : Type 0 where
  fits :
      (st : ClientState)
      → o ≡ ok st
      → Written start written st
      → length written ≤ length start.buff
      → Writes start written o
  overruns : o ≡ fault → length start.buff < length written → Writes start written o

serialize-Written :
    (start : ClientState) (written bytes : Bytes) (st : ClientState)
    → Written start written st
    → length written + length bytes ≤ length start.buff
    → (st' : ClientState) × (serialize bytes st ≡ ok st')
      × (st'.p_buff_inc ≡ st.p_buff_inc)
      × Written start (written ++ bytes) (record st' { p_buff_inc = st.p_buff_inc + length bytes })
unfolding serialize
serialize-Written start written bytes st w h =
    let (block, run, size, front) =
      memcpy_extends st.buff written bytes w.front (omega (arith, w.same_size)) in
    (
      record st { buff = block },
      rw (w.offset, run),
      refl,
      record {
        same_id = w.same_id;
        same_headers = w.same_headers;
        same_size = size ∙ w.same_size;
        offset = omega (arith, w.offset, length-append written bytes);
        front = front;
      },
    )

serialize-fault :
    (start : ClientState) (written bytes : Bytes) (st : ClientState)
    → Written start written st
    → length start.buff < length written + length bytes
    → serialize bytes st ≡ fault
unfolding serialize
serialize-fault start written bytes st w h =
    rw (memcpy_overrun st.buff st.p_buff_inc bytes (omega (arith, w.same_size, w.offset)))

pub serialize_next-Writes :
    (start : ClientState) (written bytes : Bytes) (st : ClientState)
    → Written start written st
    → Writes start (written ++ bytes) (serialize_next bytes st)
unfolding serialize_next
serialize_next-Writes start written bytes st w =
    elim (le-or-lt (length written + length bytes) (length start.buff)) [
      | inl h ↦
          let (st', run, _, w') = serialize-Written start written bytes st w h in
          fits _ (rw run) w' (omega (arith, length-append written bytes))
      | inr h ↦
          overruns (rw (serialize-fault start written bytes st w h))
            (omega (arith, length-append written bytes))
    ]

-- One run after another.
pub Writes-bind :
    (start : ClientState) (written total : Bytes) (o : Outcome ClientState)
    (f : ClientState → Outcome ClientState)
    → length written ≤ length total
    → Writes start written o
    → ((st : ClientState)
        → Written start written st
        → length written ≤ length start.buff
        → Writes start total (f st))
    → Writes start total (o >>= f)
Writes-bind start written total o f l (fits st e w h) k = rw e (k st w h)
Writes-bind start written total o f l (overruns e h) k = overruns (rw e) (omega arith)

-- All the pairs, one behind the other.
abbrev pub params_bytes : StringMap → Bytes
params_bytes [] = []
params_bytes (kv ∷ kvs) = name_value_bytes kv ++ params_bytes kvs

pub write_params-Writes :
    (start : ClientState) (written : Bytes) (kvs : StringMap) (st : ClientState)
    → Written start written st
    → length written ≤ length start.buff
    → Writes start (written ++ params_bytes kvs) (write_params kvs st)
unfolding write_params
write_params-Writes start written [] st w h = rw append-nil (fits st refl w h)
write_params-Writes start written (kv ∷ kvs) st w h =
    rw (← append_assoc written (name_value_bytes kv) (params_bytes kvs)) (
      Writes-bind start (written ++ name_value_bytes kv) _ _ (write_params kvs)
        (omega (arith, length-append (written ++ name_value_bytes kv) (params_bytes kvs)))
        (serialize_next-Writes start written (name_value_bytes kv) st w)
        (λ st' w' h'. write_params-Writes start (written ++ name_value_bytes kv) kvs st' w' h'))

-- A write that leaves `pBuffInc` where it is keeps what stands before it.
serialize-front :
    (start : ClientState) (written bytes : Bytes) (st : ClientState)
    → Written start written st
    → length written + length bytes ≤ length start.buff
    → (st' : ClientState) × (serialize bytes st ≡ ok st') × Written start written st'
serialize-front start written bytes st w h =
    let (st', run, stays, w') = serialize-Written start written bytes st w h in
    (
      st',
      run,
      record {
        same_id = w'.same_id;
        same_headers = w'.same_headers;
        same_size = w'.same_size;
        offset = stays ∙ w.offset;
        front =
            sym (
              take-take_le (length written) (length (written ++ bytes)) st'.buff
                (omega (arith, length-append written bytes)))
            ∙ ap (take (length written)) w'.front
            ∙ take_left written bytes (length written) refl;
      },
    )

-- The first loop: the lengths are added up, in 32 bits, and nothing before `pBuffInc` changes.
pub data Measures (start : ClientState) (written : Bytes) (len total : ℕ)
    (o : Outcome (ℕ × ClientState)) : Type 0 where
  measured :
      (st : ClientState)
      → o ≡ ok ((len + total) % 2 ^ 32, st)
      → Written start written st
      → Measures start written len total o
  too_long :
      o ≡ fault → length start.buff < length written + total → Measures start written len total o

pub measure_params-Measures :
    (start : ClientState) (written : Bytes) (kvs : StringMap) (len : ℕ) (st : ClientState)
    → len < 2 ^ 32
    → Written start written st
    → Measures start written len (length (params_bytes kvs)) (measure_params kvs len st)
unfolding measure_params
measure_params-Measures start written [] len st h w =
    measured st (ap (λ n. ok (n, st)) (omega arith)) w
measure_params-Measures start written (kv ∷ kvs) len st h w =
    elim (le-or-lt (length written + length (name_value_bytes kv)) (length start.buff)) [
      | inr k ↦
          too_long (rw (serialize-fault start written (name_value_bytes kv) st w k))
            (omega (arith, length-append (name_value_bytes kv) (params_bytes kvs)))
      | inl k ↦
          let (st', run, w') = serialize-front start written (name_value_bytes kv) st w k in
          rw run (
            shift (
              measure_params-Measures start written kvs
                ((len + length (name_value_bytes kv)) % 2 ^ 32) st' (omega arith) w'))
    ]
  where
    shift :
        {o : Outcome (ℕ × ClientState)}
        → Measures start written
            ((len + length (name_value_bytes kv)) % 2 ^ 32)
            (length (params_bytes kvs))
            o
        → Measures start written len (length (name_value_bytes kv ++ params_bytes kvs)) o
    shift (measured st' e w') =
        measured st'
          (e
            ∙ ap (λ n. ok (n, st'))
                (omega (arith, length-append (name_value_bytes kv) (params_bytes kvs))))
          w'
    shift (too_long e k) =
        too_long e (omega (arith, length-append (name_value_bytes kv) (params_bytes kvs)))
