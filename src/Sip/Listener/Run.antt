-- ===== src/Sip/Listener/Run.antt =====
-- The loop of `run` in mmdvm_sip/src/dmr_listener.rs over its events. What the select returns is an
-- event: a tick of the interval with its time, or what `recv_from` returns. A codec that fails in the
-- middle of a packet leaves its connection wherever it stood: a datagram carries, besides the times
-- that are read while it is handled, the connection that the listener has afterwards should the
-- decoding fail. What is only logged has no effect here.
pub mod Full
pub mod Logged
use wjmmmdvm.Base.{ℕ, suc, List, [], ◌∷◌, length, Option, none, some}
use wjmmmdvm.Base.Result.{Result, ok, err, stuck, ◌>>=◌}
use wjmmmdvm.Base.Io.{IoError, Connection}
use wjmmmdvm.Sip.Error.{SipError, io}
use wjmmmdvm.Sip.Dmr.Packet.{Packet, data_packet, parse}
use wjmmmdvm.Sip.PcmWriter.{FileSystem, Calls, Times, flush_idle}
use wjmmmdvm.Sip.Listener.{ListenError, decode_voice}

module _ (net : Connection) (fs : FileSystem) where
  open net use {Conn, view}
  open fs use {Disk}

  pub data ListenEvent : Type 0 where
    idle_tick : ℕ → ListenEvent
    received : List ℕ → Times → Conn → ListenEvent
    recv_failed : IoError → ListenEvent

  pub record Decoder : Type 0 where
    pub codec : Conn
    pub calls : Calls
    pub disk : Disk

  module _ (idle_timeout : ℕ) where
    -- A failed decode is logged and the loop goes on.
    abbrev pub after_decode :
        Conn → Result ListenError Conn × Calls × Disk → Result SipError (Option Decoder)
    after_decode broken (ok c, calls, disk) =
        ok (some (record { codec = c; calls = calls; disk = disk }))
    after_decode broken (err e, calls, disk) =
        ok (some (record { codec = broken; calls = calls; disk = disk }))
    after_decode broken (stuck, calls, disk) = stuck

    -- The fuel of the codec's loop is above the number of bytes to come.
    abbrev pub on_packet : Packet → Times → Conn → Option Decoder → Result SipError (Option Decoder)
    on_packet (data_packet p) t broken (some d) = after_decode broken (
        decode_voice net fs idle_timeout (suc (length (view d.codec).pending)) t p d.codec d.calls
          d.disk)
    on_packet other t broken decoder = ok decoder

    unfoldable pub on_event : ListenEvent → Option Decoder → Result SipError (Option Decoder)
    on_event (idle_tick now) none = ok none
    on_event (idle_tick now) (some d) =
        ok (some (record d { calls = flush_idle idle_timeout now d.calls }))
    on_event (received datagram t broken) decoder = on_packet (parse datagram) t broken decoder
    on_event (recv_failed e) decoder = err (io e)

    -- The events so far; the loop ends with an error of the socket only.
    unfoldable pub run_events : List ListenEvent → Option Decoder → Result SipError (Option Decoder)
    unfolding on_event
    run_events [] decoder = ok decoder
    run_events (e ∷ events) decoder = on_event e decoder >>= run_events events
