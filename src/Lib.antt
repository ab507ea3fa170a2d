-- ===== src/Lib.antt =====
-- Verification library of mdswp: a reliable, ordered byte stream over datagrams, with a sliding
-- window of ten segments whose numbers are bytes.
--
-- Parts and files, with the code each is about:
--   * Util.antt: src/util.rs, the window size, the timeout and the errors. An error is its kind and
--     its text, as a template with what is formatted into it. `Run` is what a call comes to:
--     it returns, panics, or its loop is not done.
--   * Segment.antt: src/segment.rs, the segments and their conversion to and from bytes. Its round
--     trip and bounds are in Segment/RoundTrip.antt, the texts for display and the views of the data
--     in Segment/Text.antt.
--   * Recv.antt: src/stream/recv.rs, `RecvStorage` with each of its methods under its own name. The
--     map of segments is a function from numbers. Recv/Track.antt holds the invariant `Tracks`,
--     which gives the bytes of the storage their positions in the unbounded sequence that the peer
--     sends; Loops, Slide, Receive and Outcome follow `recv` from its loops to the whole call;
--     Order, History and Start are about sequences of calls; Bound is about all segments a peer could
--     send, and Cleared about a storage that was cleared.
--   * Send.antt: src/stream/send.rs, `SendStorage` with each of its methods. Send/Track.antt holds
--     the invariant `Outstanding`: which positions are sent and not acknowledged, each once, and
--     what waits behind them. Window, Push, Acknowledge and Unsent are about one operation each.
--   * Stream.antt: src/stream/inner.rs, `StreamInner` with its calls; Stream/Incoming.antt is what
--     the listener hands in and `read`; Stream/Worker.antt is a round of `__thread`; and
--     Stream/Closing.antt is `finish_write` and the drop of a stream. Buffer, Conserve and Split
--     follow the bytes of `write` and `flush`, Due, Finish and Round the rounds of the
--     worker, Reading and Copying the bytes of `read`, Closed what is closed, and Errors what an error does.
--   * Listener.antt: src/listener/inner.rs, `ListenerInner` with its table of connections and a
--     store of the shared streams. Listener/Connect.antt is a connection that is opened from here,
--     from src/stream/inner.rs and `_try_recv`. Served, Sound, Datagram and Rounds follow a datagram
--     from its stream to a round of the thread; Connected is about Connect, and Resets about an answer to
--     RESET. Bind is how a listener is made, Socket what is asked of its socket
--     alone, Accept is `accept`, and Waiting, Leaves, Arrivals, Looks and Accepting follow the queue of connections.
--   * Link.antt: a sending half and the receiving half of the peer, joined by a network. Its steps are
--     the calls of both files; Link/Joined.antt is what the two agree on, Drawn, Kept and Delivery
--     follow the calls, Whole the runs, and Reliable states what is delivered in each direction. In
--     Link/Settle.antt the workers go on until nothing waits: Resend, Arrive and Answer are the parts of that, Rest the
--     whole, Low what every run keeps for it, Begin its start, and Reached the result.
--   * Wire.antt: two streams of src/stream/inner.rs, joined by a network, with the threads of both
--     interleaved. An atom, of `SendAtom` or `RecvAtom`, is what a thread does while it holds a
--     lock. Wire/Carried.antt shows that the storages make a run of Link; Refused, Bytes and
--     Delivered follow the bytes; Whole states what is read. Unroll, Methods, Reads, Mover, Works,
--     Rounds, Calls, Handlers, Finishing and Refines show that the methods of Stream are runs of atoms.
--     Lifted, Drains and Settles bring two streams to rest. Hosted and Datagrams put the
--     listeners between the streams and the network, and Handshake is how a connection begins.
--   * Public.antt: src/stream.rs and src/listener.rs, `MdswpStream`, `MdswpListener` and `Incoming`, as
--     handles of the types above.
--   * Prelude.antt: Boolean tests on numbers, and lists with the native numbers.
--
-- How they interact: `write` and `flush` cut bytes into DATA segments and push them to the sending
-- half; the worker pops acknowledgements from the receiving half and segments from the sending half
-- and hands them to the socket; an incoming acknowledgement goes to the sending half, any other
-- numbered segment to the receiving half, from which `read` pops. An error of either half becomes
-- the error of the stream, which is then forgotten by the listener. The listener finds the stream
-- of a datagram by its sender, and opens a new one for an ESTABLISH of an unknown sender.
--
-- Numbers are bytes with their wrap-around written out. Each method takes its locks one after
-- another, so a method is a function of the whole state. A clock reading is an argument, in
-- nanoseconds; the answer of the socket is a parameter. What a call asks of the listener is listed
-- as effects.
--
-- Fuel: the loops of `__try_slide_window` run for 256 rounds, one for each number, and `write` and
-- `flush` for one round more than there are bytes, `read` for one round more than there are queued
-- segments and one to stop, the worker for 21 rounds, since at most ten segments are due again and
-- at most ten are new. `hang` is what is left without fuel; the results below say where it does not
-- occur. `read` waits for the peer in a loop, and `hang` is also that it waits.
--
-- Not modelled: a call on a stream that has passed the test for an error just before the error comes.
-- The wait of `finish_write` is modelled by one look, and the loops of the two threads by one round
-- each; `accept` is given what others do between its looks. The handles of the threads, the closures
-- that `clone!` makes, and the drop of a public handle have no effect here.
pub mod Prelude
pub mod Util
pub mod Segment
pub mod Recv
pub mod Send
pub mod Stream
pub mod Listener
pub mod Link
pub mod Wire
pub mod Public
