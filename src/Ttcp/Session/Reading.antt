-- ===== src/Ttcp/Session/Reading.antt =====
-- The receiver can read what has come, in any pieces.
use raner.Common.{
  ℕ, ◌+◌, ◌-◌, ◌*◌, ◌^◌, ◌≤◌, ◌<◌, ◌≡◌, refl, sym, ap, ap₂, ◌∙◌, false, ◌||◌, leb, ltb, lt→leb,
  Bool-cases, inl, inr, List, ◌++◌, length, length-append, drop, append_assoc, arith, ok,
}
use raner.Endian.{ByteOrder}
use raner.Buffer.{ByteBuffer, readable_bytes}
use raner.Buffer.Contents.{contents}
use raner.Buffer.Valid.{IsValid, readable-eq-length}
use raner.Ttcp.{Reaction, make_context, idle, receive_message, receive_all}
use raner.Ttcp.Payloads.{copies, payload, session_message}
use raner.Ttcp.Transmit.{advanced_lem}
use raner.Ttcp.Received.{receive_nothing, receive_session}
use raner.Ttcp.Session.{System}
use raner.Ttcp.Session.Invariant.{unsent, Waits, Takes, Inv}
use raner.Ttcp.Session.Receiving.{reaction, reacts, split_front, received, Continues, continues}

-- What has come stands before what is still to come.
pub joined :
    (held chunk later y to z : List ℕ)
    → to ≡ chunk ++ later
    → held ++ (to ++ y) ≡ z
    → (held ++ chunk) ++ (later ++ y) ≡ z
joined held chunk later y to z e f =
    append_assoc held chunk (later ++ y)
    ∙ ap (◌++◌ held) (sym (append_assoc chunk later y) ∙ ap (λ q. q ++ y) (sym e))
    ∙ f

pub times : (m k len : ℕ) → m * len + k * len ≡ (m + k) * len
times m k len = omega arith

none_times : (len : ℕ) → 0 ≡ 0 * len
none_times len = omega arith

pub make_context-count : make_context.count ≡ 0
unfolding make_context
make_context-count = refl

module _ (o : ByteOrder) (number len : ℕ) (some_messages : 0 < number) (few : number < 2 ^ 31)
    (small : len + 4 < 2 ^ 31) where
  abbrev pub Reads : System → List ℕ → ByteBuffer → Type 0
  Reads s later b =
      (r : Reaction) × (receive_all o s.rx b ≡ ok r)
      × Continues o number len some_messages small s
          (received o number len some_messages small s later r)

  -- After the session message.
  messages_are_read :
      (s : System) (chunk later : List ℕ) (b : ByteBuffer)
      → Inv number len s
      → Takes number len s
      → 0 < length chunk
      → s.to_rx ≡ chunk ++ later
      → IsValid b
      → contents b ≡ s.rx_in ++ chunk
      → Reads s later b
  messages_are_read s chunk later b i q some e v held =
      let flow : contents b ++ (later ++ unsent number len s)
          ≡ copies (payload len) (number - s.rx.count) =
        ap (λ l. l ++ (later ++ unsent number len s)) held
        ∙ joined s.rx_in chunk later (unsent number len s) s.to_rx
            (copies (payload len) (number - s.rx.count)) e q.flow in
      let more : s.rx.count < number = elim (Bool-cases (ltb s.rx.count number)) [
        | inl less ↦ ground (arith, less)
        | inr no_less ↦
            let over : number - s.rx.count ≡ 0 = ground (arith, no_less) in
            absurd (
              omega (
                arith,
                ap length (flow ∙ ap (copies (payload len)) over),
                length-append (contents b) (later ++ unsent number len s),
                ap length held,
                length-append s.rx_in chunk,
                some,
              ))
      ] in
      let (k, b', run, within, part, left) =
        reacts o number len some_messages small (readable_bytes b + 1) s.rx b
          (later ++ unsent number len s) q.serves more v (omega (arith, readable-eq-length v))
          flow in
      let (serves, n, bytes) = advanced_lem len k s.rx q.serves in
      let r : Reaction = reaction o number len some_messages small k s.rx b' in
      let now_within : r.context.count ≤ number = omega (arith, n, within) in
      (
        r,
        run,
        continues o number len some_messages small s chunk later r k i some e n now_within refl (
            inr (record {
              serves = serves;
              within = now_within;
              counts =
                  bytes
                  ∙ ap (λ m. m + k * len) q.counts
                  ∙ times s.rx.count k len
                  ∙ ap (λ m. m * len) (sym n);
              part = part;
              done = ap₂ ◌||◌ (q.done ∙ lt→leb number s.rx.count more) (ap (leb number) (sym n));
              flow = left ∙ ap (λ m. copies (payload len) (number - m)) (sym n);
            })),
      )

  none_counted : (s : System) → Waits number len s → s.rx.count ≡ 0
  none_counted s q = ap (λ c. c.count) q.unset ∙ make_context-count

  -- A part of the session message has come.
  session_is_awaited :
      (s : System) (chunk later : List ℕ) (b : ByteBuffer)
      → Inv number len s
      → Waits number len s
      → 0 < length chunk
      → s.to_rx ≡ chunk ++ later
      → IsValid b
      → contents b ++ (later ++ unsent number len s)
        ≡ session_message number len ++ copies (payload len) number
      → length (contents b) < 8
      → Reads s later b
  session_is_awaited s chunk later b i q some e v flow short =
      let r : Reaction = idle make_context b in
      (
        r,
        ap (λ c. receive_all o c b) q.unset
            ∙ ap (λ n. receive_message n o make_context b) (omega arith)
            ∙ receive_nothing o number len some_messages small (readable_bytes b) b v short,
        continues o number len some_messages small s chunk later r 0 i some e
            (omega (arith, make_context-count, none_counted s q))
            (omega (arith, make_context-count)) refl
            (inl
              (record { unset = refl; few = short; up = ap (λ d. d || false) q.up; flow = flow })),
      )

  -- The whole session message has come.
  session_is_opened :
      (s : System) (chunk later : List ℕ) (b : ByteBuffer)
      → Inv number len s
      → Waits number len s
      → 0 < length chunk
      → s.to_rx ≡ chunk ++ later
      → IsValid b
      → contents b ++ (later ++ unsent number len s)
        ≡ session_message number len ++ copies (payload len) number
      → 8 ≤ length (contents b)
      → Reads s later b
  session_is_opened s chunk later b i q some e v flow long =
      let (front, after) =
        split_front (session_message number len) (contents b) (later ++ unsent number len s)
          (copies (payload len) number) long flow in
      let (c, b₁, opened, serves₀, none₀, no_bytes, v₁, held₁) =
        receive_session o number len some_messages small (readable_bytes b) (drop 8 (contents b)) b
          few v front in
      let whole : number ≡ number - c.count = omega (arith, none₀) in
      let (k, b', run, within, part, left) =
        reacts o number len some_messages small (readable_bytes b) c b₁
          (later ++ unsent number len s) serves₀ (omega (arith, none₀)) v₁
          (omega (
            arith,
            readable-eq-length v,
            ap length front,
            ap length held₁,
            length-append (session_message number len) (drop 8 (contents b)),
          ))
          (ap (λ l. l ++ (later ++ unsent number len s)) held₁
            ∙ after
            ∙ ap (copies (payload len)) whole) in
      let (serves, n, bytes) = advanced_lem len k c serves₀ in
      let r : Reaction = reaction o number len some_messages small k c b' in
      let now_within : r.context.count ≤ number = omega (arith, n, within) in
      (
        r,
        ap (λ c. receive_all o c b) q.unset
            ∙ ap (λ n. receive_message n o make_context b) (omega arith)
            ∙ opened
            ∙ run,
        continues o number len some_messages small s chunk later r k i some e
            (omega (arith, n, none₀, none_counted s q)) now_within refl
            (inr (record {
              serves = serves;
              within = now_within;
              counts =
                  bytes
                  ∙ ap (λ m. m + k * len)
                      (no_bytes ∙ none_times len ∙ ap (λ m. m * len) (sym none₀))
                  ∙ times c.count k len
                  ∙ ap (λ m. m * len) (sym n);
              part = part;
              done = ap₂ ◌||◌ q.up (ap (leb number) (sym n));
              flow = left ∙ ap (λ m. copies (payload len) (number - m)) (sym n);
            })),
      )

  session_is_read :
      (s : System) (chunk later : List ℕ) (b : ByteBuffer)
      → Inv number len s
      → Waits number len s
      → 0 < length chunk
      → s.to_rx ≡ chunk ++ later
      → IsValid b
      → contents b ≡ s.rx_in ++ chunk
      → Reads s later b
  session_is_read s chunk later b i q some e v held =
      let flow : contents b ++ (later ++ unsent number len s)
          ≡ session_message number len ++ copies (payload len) number =
        ap (λ l. l ++ (later ++ unsent number len s)) held
        ∙ joined s.rx_in chunk later (unsent number len s) s.to_rx
            (session_message number len ++ copies (payload len) number) e q.flow in
      elim (Bool-cases (ltb (length (contents b)) 8)) [
        | inl short ↦ session_is_awaited s chunk later b i q some e v flow (ground (arith, short))
        | inr long ↦ session_is_opened s chunk later b i q some e v flow (ground (arith, long))
      ]

  pub reads :
      (s : System) (chunk later : List ℕ) (b : ByteBuffer)
      → Inv number len s
      → 0 < length chunk
      → s.to_rx ≡ chunk ++ later
      → IsValid b
      → contents b ≡ s.rx_in ++ chunk
      → Reads s later b
  reads s chunk later b i some e v held = elim i.receiver [
    | inl q ↦ session_is_read s chunk later b i q some e v held
    | inr q ↦ messages_are_read s chunk later b i q some e v held
  ]
