-- ===== src/Net/Codec/Pieces.antt =====
-- decode, called for the pieces of a stream.
use xbtc.Base.{
  ℕ, zero, suc, ◌+◌, ◌-◌, ◌%◌, ◌^◌, ◌≤◌, ◌<◌, ◌≡◌, refl, sym, ◌∙◌, ap, false, Option, none, some,
  ◌>>=◌, List, [], ◌∷◌, ◌++◌, length, drop, ◌==◌, arith, inl, inr, length-append, none-ne-some,
  length-drop, append-nil, append_assoc, Option-cases, subst, some-pair_right,
}
use xbtc.Stream.{Streams}
use xbtc.Net.Codec.{
  MessageHeader, Decoded, incomplete, message, decode_one_message, decode_messages_loop,
  decode_messages, decode, decode_all, protocol_header_size,
}
use xbtc.Net.Codec.Bytes.{
  IsBytes, IsBytes-left, IsBytes-right, IsBytes-drop, IsBytes-append, drop-append_le,
}
use xbtc.Net.Codec.Step.{decode_one_message-Persists}

-- The pieces of a stream, joined.
abbrev pub concat : List (List ℕ) → List ℕ
concat [] = []
concat (piece ∷ pieces) = piece ++ concat pieces

module _ (xul : Streams) (hash : List ℕ → List ℕ) (protocol_magic : ℕ) where
  abbrev pub Run : Type 0
  Run = Option (List (MessageHeader × List ℕ) × List ℕ)

  abbrev pub step : List ℕ → Option Decoded
  step = decode_one_message xul hash protocol_magic

  abbrev pub loop : ℕ → List ℕ → Run
  loop = decode_messages_loop xul hash protocol_magic

  -- A message takes its bytes off the buffer.
  taken :
      (buf : List ℕ) (header : MessageHeader) (payload : List ℕ)
      → IsBytes buf
      → length buf < 2 ^ 31
      → step buf ≡ some (message header payload)
      → header.length + protocol_header_size ≤ length buf
  taken buf header payload w small e =
      let h =
        decode_one_message-Persists xul hash protocol_magic buf [] (rw append-nil w)
          (rw append-nil small) in
      (rw e at h).1

  -- The rounds given do not matter, if they are more than the bytes.
  loop_fuel :
      (m n : ℕ) (buf : List ℕ)
      → IsBytes buf
      → length buf < 2 ^ 31
      → length buf < m
      → length buf < n
      → loop m buf ≡ loop n buf
  unfolding decode_messages_loop
  loop_fuel zero n buf w small a b = absurd (omega arith)
  loop_fuel (suc m) zero buf w small a b = absurd (omega arith)
  loop_fuel (suc m) (suc n) [] w small a b = refl
  loop_fuel (suc m) (suc n) (x ∷ xs) w small a b = elim (Option-cases (step (x ∷ xs))) [
    | inl e ↦ rw (e, decode_messages_loop) refl
    | inr (incomplete, e) ↦ rw (e, decode_messages_loop) refl
    | inr (message header payload, e) ↦
        let size = (header.length + protocol_header_size) % 2 ^ 32 in
        let fits = taken (x ∷ xs) header payload w small e in
        let less : length (drop size (x ∷ xs)) < length (x ∷ xs) =
          omega (arith, length-drop size (x ∷ xs)) in
        rw (e, decode_messages_loop)
          (ap (λ r. r >>= λ (messages, rest). some ((header, payload) ∷ messages, rest))
            (loop_fuel m n (drop size (x ∷ xs)) (IsBytes-drop size (x ∷ xs) w) (omega arith)
              (omega arith) (omega arith)))
  ]

  -- How a run goes on with more bytes.
  abbrev continue_with : List ℕ → Run → Run
  continue_with ys none = none
  continue_with ys (some (messages, rest)) =
      loop (suc (length (rest ++ ys))) (rest ++ ys) >>= λ (messages', rest').
      some (messages ++ messages', rest')

  abbrev pub deliver : MessageHeader → List ℕ → Run → Run
  deliver header payload none = none
  deliver header payload (some (messages, rest)) = some ((header, payload) ∷ messages, rest)

  continue_with-deliver :
      (header : MessageHeader) (payload ys : List ℕ) (r : Run)
      → deliver header payload (continue_with ys r) ≡ continue_with ys (deliver header payload r)
  continue_with-deliver header payload ys none = refl
  continue_with-deliver header payload ys (some (messages, rest)) =
      elim (Option-cases (loop (suc (length (rest ++ ys))) (rest ++ ys))) [
        | inl e ↦ rw e refl
        | inr (a, e) ↦ rw e refl
      ]

  bind-deliver :
      (header : MessageHeader) (payload : List ℕ) (r : Run)
      → (r >>= λ (messages, rest). some ((header, payload) ∷ messages, rest))
        ≡ deliver header payload r
  bind-deliver header payload none = refl
  bind-deliver header payload (some (messages, rest)) = refl

  bind-unit : (r : Run) → r ≡ (r >>= λ (messages, rest). some ([] ++ messages, rest))
  bind-unit none = refl
  bind-unit (some (messages, rest)) = refl

  -- One round of the loop.
  abbrev next : ℕ → List ℕ → Option Decoded → Run
  next m buf none = none
  next m buf (some incomplete) = some ([], buf)
  next m buf (some (message header payload)) =
      deliver header payload (loop m (drop ((header.length + protocol_header_size) % 2 ^ 32) buf))

  loop-next : (m x : ℕ) (xs : List ℕ) → loop (suc m) (x ∷ xs) ≡ next m (x ∷ xs) (step (x ∷ xs))
  unfolding decode_messages_loop
  loop-next m x xs = elim (Option-cases (step (x ∷ xs))) [
    | inl e ↦ rw (e, decode_messages_loop) refl
    | inr (incomplete, e) ↦ rw (e, decode_messages_loop) refl
    | inr (message header payload, e) ↦
        rw (e, decode_messages_loop)
          (bind-deliver header payload
            (loop m (drop ((header.length + protocol_header_size) % 2 ^ 32) (x ∷ xs))))
  ]

  pub loop_message :
      (m : ℕ) (buf : List ℕ) (header : MessageHeader) (payload : List ℕ)
      → 0 < length buf
      → step buf ≡ some (message header payload)
      → loop (suc m) buf
        ≡ deliver header payload
            (loop m (drop ((header.length + protocol_header_size) % 2 ^ 32) buf))
  loop_message m [] header payload h e = absurd (omega arith)
  loop_message m (x ∷ xs) header payload h e = loop-next m x xs ∙ ap (next m (x ∷ xs)) e

  restart :
      (ys : List ℕ) (m : ℕ)
      → IsBytes ys
      → length ys < 2 ^ 31
      → length ys < m
      → loop m ys ≡ continue_with ys (some ([], []))
  restart ys m w small a =
      loop_fuel m (suc (length ys)) ys w small a (omega arith)
      ∙ bind-unit (loop (suc (length ys)) ys)

  loop-append :
      (m n : ℕ) (xs ys : List ℕ)
      → IsBytes (xs ++ ys)
      → length (xs ++ ys) < 2 ^ 31
      → length xs < m
      → length (xs ++ ys) < n
      → loop n (xs ++ ys) ≡ continue_with ys (loop m xs)
  loop-append zero n xs ys w small a b = absurd (omega arith)
  loop-append (suc m) zero xs ys w small a b = absurd (omega arith)
  loop-append (suc m) (suc n) [] ys w small a b =
      unfold decode_messages_loop in restart ys (suc n) w small b
  loop-append (suc m) (suc n) (x ∷ xs) ys w small a b =
      let h = decode_one_message-Persists xul hash protocol_magic (x ∷ xs) ys w small in
      elim (Option-cases (step (x ∷ xs))) [
        | inl e ↦ rw (loop-next n x (xs ++ ys), loop-next m x xs, e, (rw e at h)) (refl)
        | inr (incomplete, e) ↦
            loop_fuel (suc n) (suc (length (x ∷ (xs ++ ys)))) (x ∷ (xs ++ ys)) w small b
              (omega arith)
            ∙ bind-unit (loop (suc (length (x ∷ (xs ++ ys)))) (x ∷ (xs ++ ys)))
            ∙ rw (loop-next m x xs, e) (refl)
        | inr (message header payload, e) ↦
            let (later, fits) = rw e at h in
            let size = (header.length + protocol_header_size) % 2 ^ 32 in
            let within : size ≤ length (x ∷ xs) = omega arith in
            let left : length (drop size (x ∷ xs)) ≡ length (x ∷ xs) - size =
              length-drop size (x ∷ xs) in
            let cut : drop size (x ∷ (xs ++ ys)) ≡ drop size (x ∷ xs) ++ ys =
              drop-append_le size (x ∷ xs) ys within in
            let w' : IsBytes (drop size (x ∷ xs) ++ ys) =
              subst IsBytes cut (IsBytes-drop size (x ∷ (xs ++ ys)) w) in
            let longer : length (drop size (x ∷ xs) ++ ys)
                ≡ length (drop size (x ∷ xs)) + length ys =
              length-append (drop size (x ∷ xs)) ys in
            let total : length (xs ++ ys) ≡ length xs + length ys = length-append xs ys in
            let ih =
              loop-append m n (drop size (x ∷ xs)) ys w' (omega arith) (omega arith)
                (omega arith) in
            loop-next n x (xs ++ ys)
            ∙ ap (next n (x ∷ (xs ++ ys))) later
            ∙ (ap (λ t. deliver header payload (loop n t)) cut)
            ∙ ap (deliver header payload) ih
            ∙ continue_with-deliver header payload ys (loop m (drop size (x ∷ xs)))
            ∙ (ap (continue_with ys) (sym (loop-next m x xs ∙ ap (next m (x ∷ xs)) e)))
      ]

  -- decode, as the loop on what it has.
  pub decode-loop :
      (buffer piece : List ℕ)
      → decode xul hash protocol_magic buffer piece
        ≡ loop (suc (length (buffer ++ piece))) (buffer ++ piece)
  unfolding decode decode_messages
  decode-loop [] piece = refl
  decode-loop (b ∷ buffer) piece =
      let e : (suc (length buffer) == 0) ≡ false = ground arith in rw (e, decode) refl

  -- What is left is bytes of the buffer.
  abbrev Leaves : List ℕ → List ℕ → Type 0
  Leaves buf rest = IsBytes rest × (length rest ≤ length buf)

  left_of :
      (buf buf' : List ℕ) (ms ms' : List (MessageHeader × List ℕ)) (rest : List ℕ)
      → Leaves buf buf'
      → ◌≡◌ {A = Run} (some (ms', buf')) (some (ms, rest))
      → Leaves buf rest
  left_of buf buf' ms ms' rest w e = subst (Leaves buf) (some-pair_right e) w

  loop-Leaves :
      (m : ℕ) (buf : List ℕ) (ms : List (MessageHeader × List ℕ)) (rest : List ℕ)
      → IsBytes buf
      → loop m buf ≡ some (ms, rest)
      → Leaves buf rest
  unfolding decode_messages_loop
  loop-Leaves zero buf ms rest w e = absurd (none-ne-some e)
  loop-Leaves (suc m) [] ms rest w e = left_of [] [] ms [] rest (tt, omega arith) e
  loop-Leaves (suc m) (x ∷ xs) ms rest w e =
      let e' = sym (loop-next m x xs) ∙ e in
      elim (Option-cases (step (x ∷ xs))) [
        | inl f ↦ absurd (none-ne-some (rw f at e'))
        | inr (incomplete, f) ↦ left_of (x ∷ xs) (x ∷ xs) ms [] rest (w, omega arith) (rw f at e')
        | inr (message header payload, f) ↦
            let size = (header.length + protocol_header_size) % 2 ^ 32 in
            elim (Option-cases (loop m (drop size (x ∷ xs)))) [
              | inl g ↦ absurd (none-ne-some (rw (f, g) at e'))
              | inr ((ms', rest'), g) ↦
                  let (w', le) =
                    loop-Leaves m (drop size (x ∷ xs)) ms' rest' (IsBytes-drop size (x ∷ xs) w) g in
                  left_of (x ∷ xs) rest' ms ((header, payload) ∷ ms') rest
                    (w', omega (arith, length-drop size (x ∷ xs))) (rw (f, g) at e')
            ]
      ]

  abbrev both : Run → (List ℕ → Run) → Run
  both none f = none
  both (some (messages, rest)) f =
      f rest >>= λ (messages', rest'). some (messages ++ messages', rest')

  both-bind :
      (r : Run) (f : List ℕ → Run)
      → (r >>= λ (messages, rest).
          f rest >>= λ (messages', rest'). some (messages ++ messages', rest'))
        ≡ both r f
  both-bind none f = refl
  both-bind (some (messages, rest)) f = refl

  -- On less than 2 ^ 31 bytes, decode called for the pieces of a stream in turn does what one call
  -- for the whole stream does, failures included: the messages, and what is left for the next
  -- call.
  pub decode_all-decode :
      (buffer : List ℕ) (piece : List ℕ) (pieces : List (List ℕ))
      → IsBytes (buffer ++ (piece ++ concat pieces))
      → length (buffer ++ (piece ++ concat pieces)) < 2 ^ 31
      → decode_all xul hash protocol_magic buffer (piece ∷ pieces)
        ≡ decode xul hash protocol_magic buffer (piece ++ concat pieces)
  unfolding decode_all
  decode_all-decode buffer piece [] w small =
      rw append-nil (elim (Option-cases (decode xul hash protocol_magic buffer piece)) [
        | inl e ↦ rw e refl
        | inr ((ms, rest), e) ↦ rw e (ap (λ t. some (t, rest)) (append-nil ms))
      ])
  decode_all-decode buffer piece (piece' ∷ pieces) w small =
      let ys = piece' ++ concat pieces in
      let xs = buffer ++ piece in
      let shape : buffer ++ (piece ++ ys) ≡ xs ++ ys = sym (append_assoc buffer piece ys) in
      let w' = subst IsBytes shape w in
      let total : length (xs ++ ys) ≡ length xs + length ys = length-append xs ys in
      let small' : length (xs ++ ys) < 2 ^ 31 = subst (λ t. length t < 2 ^ 31) shape small in
      let whole =
        loop-append (suc (length xs)) (suc (length (xs ++ ys))) xs ys w' small' (omega arith)
          (omega arith) in
      let f : List ℕ → Run = λ rest. decode_all xul hash protocol_magic rest (piece' ∷ pieces) in
      let joined : both (loop (suc (length xs)) xs) f
          ≡ continue_with ys (loop (suc (length xs)) xs) =
        elim (Option-cases (loop (suc (length xs)) xs)) [
          | inl e ↦ rw e refl
          | inr ((ms, rest), e) ↦
              let (v, le) = loop-Leaves (suc (length xs)) xs ms rest (IsBytes-left xs ys w') e in
              let same : f rest ≡ loop (suc (length (rest ++ ys))) (rest ++ ys) =
                decode_all-decode rest piece' pieces
                  (IsBytes-append rest ys v (IsBytes-right xs ys w'))
                  (omega (arith, length-append rest ys))
                ∙ decode-loop rest ys in
              rw e (ap (λ t. t >>= λ (messages', rest'). some (ms ++ messages', rest')) same)
        ] in
      both-bind (decode xul hash protocol_magic buffer piece) f
      ∙ ap (λ r. both r f) (decode-loop buffer piece)
      ∙ joined
      ∙ sym whole
      ∙ ap (λ t. loop (suc (length t)) t) (sym shape)
      ∙ sym (decode-loop buffer (piece ++ ys))
