-- ===== src/StreamCtx/Read.antt =====
-- What one read event takes off the socket.
use avant.Base.{
  ◌+◌, ◌-◌, ◌≤◌, ◌<◌, ◌≡◌, Bool, true, false, none, refl, some, List, [], ◌∷◌, ◌++◌, Bytes, length,
  take, arith, length-append, length-take,
}
use avant.StreamCtx.{
  Link, RecvResult, received, recv_blocked, recv_interrupted, recv_closed, recv_loop, read_event,
}
use avant.Session.{rwe}

-- One event reads at most 10240 bytes, whatever the socket answers: a buffer that holds no more than
-- that before the loop holds no more behind it.
pub recv_loop_bound :
    (results : List RecvResult) (buffer bytes : Bytes)
    → length buffer ≤ 10240
    → recv_loop results buffer ≡ some bytes
    → length bytes ≤ 10240
unfolding recv_loop
recv_loop_bound [] buffer bytes h e = ground (arith, e)
recv_loop_bound (received bs ∷ rest) buffer bytes h e = ground (
  arith,
  e,
  recv_loop_bound rest (buffer ++ take (10240 - length buffer) bs) bytes,
  length-append buffer (take (10240 - length buffer) bs),
  length-take (10240 - length buffer) bs,
)
recv_loop_bound (recv_blocked ∷ rest) buffer bytes h e = ground (arith, e)
recv_loop_bound (recv_interrupted ∷ rest) buffer bytes h e =
    ground (arith, e, recv_loop_bound rest buffer bytes)
recv_loop_bound (recv_closed ∷ rest) buffer bytes h e = ground (arith, e)

-- the answers bring bytes, or a signal interrupts them
abbrev pub goes_on : List RecvResult → Bool
goes_on [] = true
goes_on (received bs ∷ rest) = goes_on rest
goes_on (recv_blocked ∷ rest) = false
goes_on (recv_interrupted ∷ rest) = goes_on rest
goes_on (recv_closed ∷ rest) = false

abbrev pub brought : List RecvResult → Bytes
brought [] = []
brought (received bs ∷ rest) = bs ++ brought rest
brought (recv_blocked ∷ rest) = brought rest
brought (recv_interrupted ∷ rest) = brought rest
brought (recv_closed ∷ rest) = brought rest

-- The loop that comes to the end of the stream gives nothing back, whatever it has read.
recv_loop_ended :
    (front rest : List RecvResult) (buffer : Bytes)
    → goes_on front ≡ true
    → length buffer + length (brought front) < 10240
    → recv_loop (front ++ (recv_closed ∷ rest)) buffer ≡ none
unfolding recv_loop
recv_loop_ended [] rest buffer g h = ground arith
recv_loop_ended (received bs ∷ front) rest buffer g h = ground (
  arith,
  h,
  recv_loop_ended front rest (buffer ++ take (10240 - length buffer) bs) g,
  length-append buffer (take (10240 - length buffer) bs),
  length-append bs (brought front),
  length-take (10240 - length buffer) bs,
)
recv_loop_ended (recv_blocked ∷ front) rest buffer g h = absurd (ground (arith, g))
recv_loop_ended (recv_interrupted ∷ front) rest buffer g h =
    ground (arith, h, recv_loop_ended front rest buffer g)
recv_loop_ended (recv_closed ∷ front) rest buffer g h = absurd (ground (arith, g))

-- If the end of the stream comes in the event in which the last bytes of the client come, in any
-- number of reads with interruptions between them and fewer than 10240 bytes together, those bytes are
-- dropped: the receive buffer keeps what it had, the application is not asked, and the connection is
-- marked to be closed and registered for both events.
pub read_event_drops_last :
    (process : Link → Link × Bool) (front rest : List RecvResult) (l : Link)
    → goes_on front ≡ true
    → length (brought front) < 10240
    → read_event process (front ++ (recv_closed ∷ rest)) l
      ≡ (record l { is_close = true; interest = rwe }, true)
unfolding read_event
read_event_drops_last process front rest l g h =
    rw (recv_loop_ended front rest [] g (omega (arith, h)), read_event) refl
