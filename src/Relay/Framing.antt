-- ===== src/Relay/Framing.antt =====
-- How the bytes of a client arrive plays no part.
use swm_core.Prelude.{
  ℕ, Bool, List, [], ◌∷◌, ◌++◌, append_assoc, append-nil, Option, some, ◌==◌, ◌≡◌, refl, sym, ◌∙◌,
  ap, arith, Bytes, Lacks, All-append, ◌≢◌, map, Bool-cases, inl, inr,
}
use swm_core.Ctrl.{newline}
use swm_core.Relay.{
  Event, Requests, Relay, ReadCall, bytes, handle_ctrl_line, lines, try_read_ctrl_client, read_all,
}

module _ (make_ref : ℕ → Bytes) (sends : ℕ → Bool) (client : Option ℕ) where
  -- The lines of two texts, one behind the other.
  abbrev joined : Requests × Bytes × List Event → Bytes → Requests × Bytes × List Event
  joined (q, cur, es) t =
      let (q', left, fs) = lines make_ref sends client q cur t in (q', left, es ++ fs)

  lines-append :
      (q : Requests) (cur s t : Bytes)
      → lines make_ref sends client q cur (s ++ t) ≡ joined (lines make_ref sends client q cur s) t
  unfolding lines
  lines-append q cur [] t = refl
  lines-append q cur (c ∷ s) t = elim (Bool-cases (c == newline)) [
    | inl e ↦ rw e (
        rw (lines-append (handle_ctrl_line make_ref sends client q cur).0 [] s t) (rw append_assoc))
    | inr e ↦ rw e (lines-append q (cur ++ c ∷ []) s t)
  ]

  -- A text with no newline only makes the line longer.
  pub lines_part :
      (q : Requests) (cur s t : Bytes)
      → Lacks newline s
      → lines make_ref sends client q cur (s ++ t) ≡ lines make_ref sends client q (cur ++ s) t
  unfolding lines
  lines_part q cur [] t h = rw append-nil
  lines_part q cur (c ∷ s) t (h, hs) =
      ground (arith, lines_part q (cur ++ c ∷ []) s t hs, append_assoc cur (c ∷ []) s)

  lines-Lacks :
      (q : Requests) (cur s : Bytes)
      → Lacks newline cur
      → Lacks newline (lines make_ref sends client q cur s).1
  unfolding lines
  lines-Lacks q cur [] h = h
  lines-Lacks q cur (c ∷ s) h = elim (Bool-cases (c == newline)) [
    | inl e ↦ rw e (lines-Lacks (handle_ctrl_line make_ref sends client q cur).0 [] s tt)
    | inr e ↦ rw e (
        lines-Lacks q (cur ++ c ∷ []) s
          (All-append (λ x. x ≢ newline) cur (c ∷ []) h (λ same. absurd (ground arith), tt)))
  ]

-- The chunks as one text.
abbrev pub concat : List Bytes → Bytes
concat [] = []
concat (c ∷ cs) = c ++ concat cs

-- The relay with the client `fd`.
abbrev pub relay : ℕ → Requests → Bytes → Relay
relay fd q buf = record { client = some fd; buf = buf; requests = q }

module _ (make_ref : ℕ → Bytes) (sends : ℕ → Bool) (fd : ℕ) where
  abbrev pub on_relay : Requests × Bytes × List Event → Relay × List Event
  on_relay (q, left, es) = (relay fd q left, es)

  try_read_bytes :
      (q : Requests) (buf s : Bytes)
      → Lacks newline buf
      → try_read_ctrl_client make_ref sends (relay fd q buf) (bytes s)
        ≡ on_relay (lines make_ref sends (some fd) q buf s)
  unfolding try_read_ctrl_client
  try_read_bytes q buf s h = ap on_relay (lines_part make_ref sends (some fd) q [] buf s h)

  -- The events of a call in front of those of the further calls.
  abbrev behind : List Event → Relay × List Event → Relay × List Event
  behind es (r, fs) = (r, es ++ fs)

  read_all_cons :
      (r : Relay) (call : ReadCall) (calls : List ReadCall)
      → read_all make_ref sends r (call ∷ calls)
        ≡ behind
            (try_read_ctrl_client make_ref sends r call).1
            (read_all make_ref sends (try_read_ctrl_client make_ref sends r call).0 calls)
  unfolding read_all
  read_all_cons r call calls = refl

  pub read_all-bytes :
      (q : Requests) (buf : Bytes) (chunks : List Bytes)
      → Lacks newline buf
      → read_all make_ref sends (relay fd q buf) (map bytes chunks)
        ≡ on_relay (lines make_ref sends (some fd) q buf (concat chunks))
  read_all-bytes q buf [] h = unfold read_all lines in refl
  read_all-bytes q buf (c ∷ chunks) h =
      let now = lines make_ref sends (some fd) q buf c in
      read_all_cons (relay fd q buf) (bytes c) (map bytes chunks)
      ∙ (ap (λ p. behind p.1 (read_all make_ref sends p.0 (map bytes chunks)))
            (try_read_bytes q buf c h)
          ∙ (ap (behind now.2)
                (read_all-bytes now.0 now.1 chunks (lines-Lacks make_ref sends (some fd) q buf c h))
              ∙ ap on_relay (sym (lines-append make_ref sends (some fd) q buf c (concat chunks)))))

  -- Where the buffer holds no whole line, the requests, the answers to the client and the buffer do
  -- not depend on how the text of a client is split into reads: any number of reads does what one
  -- read of the whole text does.
  pub read_all-chunks :
      (q : Requests) (buf : Bytes) (chunks : List Bytes)
      → Lacks newline buf
      → read_all make_ref sends (relay fd q buf) (map bytes chunks)
        ≡ read_all make_ref sends (relay fd q buf) (bytes (concat chunks) ∷ [])
  read_all-chunks q buf chunks h =
      read_all-bytes q buf chunks h
      ∙ (ap (λ s. on_relay (lines make_ref sends (some fd) q buf s))
            (sym (append-nil (concat chunks)))
          ∙ sym (read_all-bytes q buf (concat chunks ∷ []) h))
