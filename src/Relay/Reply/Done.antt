-- ===== src/Relay/Reply/Done.antt =====
-- A reply that ends a request, and the requests that are pending.
use swm_core.Prelude.{
  ℕ, List, [], ◌∷◌, ◌++◌, Option, none, some, ◌≡◌, ap, arith, Bytes, codes, bytes_eq_iff, ℤ,
}
use swm_core.Ei.{Ei}
use swm_core.Ei.Tag.{small_tuple_ext, binary_ext}
use swm_core.Decode.{c_string}
use swm_core.Numbers.{print_int}
use swm_core.Relay.{reply, Requests, put, drop_ref, answer}
use swm_core.Relay.Reply.{
  finished, find_ref, respond, c_strings, ref_at, behind_header, reply_ref, code_at, tagged,
  tuple_message, message, handle_reply,
}

-- The pending requests with a new reference.
pub find-put :
    (ref : Bytes) (fd : Option ℕ) (m : List (Bytes × Option ℕ))
    → find_ref ref (put ref fd m) ≡ some fd
unfolding find_ref put
find-put ref fd [] = ground (arith, bytes_eq_iff ref ref)
find-put ref fd ((k, v) ∷ m) =
    ground (arith, find-put ref fd m, bytes_eq_iff k ref, bytes_eq_iff ref ref)

pub drop-put :
    (ref : Bytes) (fd : Option ℕ) (m : List (Bytes × Option ℕ))
    → find_ref ref m ≡ none
    → drop_ref ref (put ref fd m) ≡ m
unfolding find_ref drop_ref put
drop-put ref fd [] h = ground (arith, bytes_eq_iff ref ref)
drop-put ref fd ((k, v) ∷ m) h = ground (arith, drop-put ref fd m)

-- A frame that says that the task of a reference is done, with its exit code.
pub record DoneFrame (E : Ei) (b : E.Buf) (ref : Bytes) (z : ℤ) : Type 0 where
  pub i1 : ℕ
  pub i2 : ℕ
  pub i3 : ℕ
  pub i4 : ℕ
  pub i5 : ℕ
  pub i6 : ℕ
  pub i7 : ℕ
  pub version : ℕ
  pub name : Bytes
  pub size : ℕ
  pub msg_size : ℕ
  pub raw : Bytes
  pub has_version : E.decode_version b 0 ≡ some (version, i1)
  pub has_header : E.decode_tuple_header b i1 ≡ some (3, i2)
  pub has_name : E.decode_atom b i2 ≡ some (name, i3)
  pub ref_type : E.get_type b i3 ≡ some (binary_ext, size)
  pub has_ref : E.decode_binary b i3 ≡ some (raw, i4)
  pub ref_text : c_string raw ≡ ref
  pub msg_type : E.get_type b i4 ≡ some (small_tuple_ext, msg_size)
  pub msg_header : E.decode_tuple_header b i4 ≡ some (2, i5)
  pub msg_tag : E.decode_atom b i5 ≡ some (codes "done", i6)
  pub msg_code : E.decode_long b i6 ≡ some (z, i7)

reply_ref-DoneFrame :
    (E : Ei) (b : E.Buf) (ref : Bytes) (z : ℤ) (d : DoneFrame E b ref z)
    → reply_ref E b ≡ some (ref, d.i4)
unfolding reply_ref behind_header ref_at c_strings
reply_ref-DoneFrame E b ref z d =
    rw (d.has_version, reply_ref)
      (rw (d.has_header, behind_header)
        (rw (d.has_name, d.ref_type, ref_at) (rw (d.has_ref, d.ref_text))))

message-DoneFrame :
    (E : Ei) (b : E.Buf) (ref : Bytes) (z : ℤ) (d : DoneFrame E b ref z)
    → message E b d.i4 ≡ finished z
unfolding message tuple_message tagged code_at
message-DoneFrame E b ref z d =
    rw (d.msg_type, message)
      (rw (d.msg_header, tuple_message) (rw (d.msg_tag, tuple_message) (rw (d.msg_code, code_at))))

pub handle_reply-DoneFrame :
    (E : Ei) (b : E.Buf) (ref : Bytes) (z : ℤ) (fd : ℕ) (q : Requests)
    → DoneFrame E b ref z
    → find_ref ref q.pending ≡ some (some fd)
    → handle_reply E b q ≡ (
      record q { pending = drop_ref ref q.pending },
      reply fd (codes "DONE " ++ print_int z) ∷ [],
    )
unfolding handle_reply respond answer
handle_reply-DoneFrame E b ref z fd q d h =
    rw (reply_ref-DoneFrame E b ref z d, handle_reply)
      (rw (h, handle_reply) (ap (λ m. respond m ref (some fd) q) (message-DoneFrame E b ref z d)))
