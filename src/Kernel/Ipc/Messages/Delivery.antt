-- ===== src/Kernel/Ipc/Messages/Delivery.antt =====
-- krn/ipc.cpp, `do_normal_ipc`: what the receiver finds in its registers.
use wrmos.Base.{
  update, ℕ, zero, suc, ◌≡◌, refl, ap, Bool, true, false, ◌&&◌, ==_refl, ==_ne, ◌≢◌, leb, ltb,
  if◌then◌else◌, arith,
}
use wrmos.L4.MsgTag
use wrmos.Kernel.State.{Kernel}
use wrmos.Kernel.Ipc.Messages.{copy_words, copy_message, syscall_i0}

copy_words-reads :
    (src dst : ℕ → ℕ) (n i : ℕ)
    → copy_words src dst n i ≡ (if ltb 0 i && leb i n then src i else dst i)
unfolding copy_words
copy_words-reads src dst zero i = ground arith
copy_words-reads src dst (suc n) i = ground (arith, copy_words-reads src dst n i)

-- A message of a thread to another leaves in the receiver the sender's tag and its untyped words, in
-- the same registers, and no other register of the receiver changes. The receiver's call returns the
-- virtual sender of a propagated message, or else the identifier of the sender, local where asked for,
-- and then the actual sender of a propagated message stands in the receiver's UTCB. No other thread
-- changes.
pub copy_message-delivers :
    (k : Kernel) (snd rcv u i : ℕ) (propagated use_local_id : Bool)
    → rcv ≢ u
    → (((copy_message k snd rcv propagated use_local_id).threads rcv).mr i ≡ (
        if leb i (MsgTag.untyped ((k.threads snd).mr 0))
        then (k.threads snd).mr i
        else (k.threads rcv).mr i))
      × (((copy_message k snd rcv propagated use_local_id).threads rcv).frame syscall_i0 ≡ (
          if propagated
          then (k.threads snd).sender
          else if use_local_id
          then (k.threads snd).localid
          else (k.threads snd).globid))
      × (((copy_message k snd rcv propagated use_local_id).threads rcv).sender ≡ (
          if propagated
          then (if use_local_id then (k.threads snd).localid else (k.threads snd).globid)
          else (k.threads rcv).sender))
      × ((copy_message k snd rcv propagated use_local_id).threads u ≡ k.threads u)
unfolding copy_message
copy_message-delivers k snd rcv u i true use_local_id d = (
  rw (==_refl rcv) (
      ground (
        arith,
        copy_words-reads (k.threads snd).mr (update (k.threads rcv).mr 0 ((k.threads snd).mr 0))
            (MsgTag.untyped ((k.threads snd).mr 0)) i,
        ap (k.threads snd).mr {x = i} {y = 0},
      )),
  rw (==_refl rcv) refl,
  rw (==_refl rcv) refl,
  rw (==_ne rcv u d) refl,
)
copy_message-delivers k snd rcv u i false use_local_id d = (
  rw (==_refl rcv) (
      ground (
        arith,
        copy_words-reads (k.threads snd).mr (update (k.threads rcv).mr 0 ((k.threads snd).mr 0))
            (MsgTag.untyped ((k.threads snd).mr 0)) i,
        ap (k.threads snd).mr {x = i} {y = 0},
      )),
  rw (==_refl rcv) refl,
  rw (==_refl rcv) refl,
  rw (==_ne rcv u d) refl,
)
