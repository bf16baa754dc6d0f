-- ===== src/Socket/Tests.antt =====
-- A note on its way to another host.
use pimidi.Common.{
  ℕ, ◌≡◌, refl, true, false, inl, Option, some, none, List, [], ◌∷◌, ◌++◌, arith, replicate,
}
use pimidi.Common.Memory.{done, fault, Returns}
use pimidi.MidiState.{MidiState, init}
use pimidi.MidiState.Refine.{view}
use pimidi.MidiState.Parser
use pimidi.RtpPacket
use pimidi.RtpPacket.RoundTrip.{Fits, header_bytes}
use pimidi.MidiPayload
use pimidi.MidiPayload.RoundTrip.{with_bytes}
use pimidi.DataTable.{DataTable, used_item, find, find_item}
use pimidi.Journal
use pimidi.Journal.{has_data}
use pimidi.Connection.{Ctx, Env, idle, find_by_ssrc, increment_seq, send}
use pimidi.Sender.{send_to, no_entry}
use pimidi.Sender.Sent.{header_of}
use pimidi.Socket.{read_rtp}
use pimidi.Socket.Inbound.{CanTake, Delivered}
use pimidi.Socket.Delivery.{read_rtp-send_to}
use pimidi.Socket.Short.{read_rtp_empty}

abbrev surroundings : Env
surroundings = record {
  now = 5000;
  random = λ k. 40;
  sock_info = λ ip_address port. [];
  ring_buffer_size = 0;
  memory = 77;
}

abbrev fresh_state : MidiState
fresh_state = record {
  status = init;
  running_status = 0;
  ring = record { start = 0; end = 0; size = 16; used = 0; bytes = replicate 16 0 };
  hold = record { len = 0; num_blocks = 0; block_size = 512; bytes = [] };
  current_delta = 0;
  partial_sysex = 0;
}

fresh_state-CanTake : CanTake fresh_state 3
fresh_state-CanTake = record {
  ring_valid = record {
    block = refl;
    sized = omega arith;
    start_in = omega arith;
    end_in = omega arith;
    used_in = omega arith;
    linked = inl (omega arith);
  };
  empty = refl;
  fits = omega arith;
  room = record {
    valid = record {
      blocks = omega arith;
      block = refl;
      sized = omega arith;
      len_in = omega arith;
    };
    block = refl;
    small = omega arith;
  };
  waits = refl;
}

abbrev with_ssrcs : ℕ → ℕ → Option MidiState → Ctx
with_ssrcs ssrc send_ssrc midi_state = record {
  status = idle;
  ssrc = ssrc;
  send_ssrc = send_ssrc;
  initiator = 9;
  seq = 65535;
  control_port = 5004;
  data_port = 5005;
  control_address = 10 ∷ 0 ∷ 0 ∷ 1 ∷ [];
  data_address = 10 ∷ 0 ∷ 0 ∷ 1 ∷ [];
  start = 1000;
  ip_address = none;
  name = none;
  journal = Journal.init;
  midi_state = midi_state;
}

-- The connection at this side, and the one of the other side.
abbrev here : Ctx
here = with_ssrcs 7 8 none

abbrev there : Ctx
there = with_ssrcs 8 7 (some fresh_state)

abbrev others : DataTable Ctx
others = record { items = used_item there ∷ []; item_destructor = true }

no_data : has_data here.journal ≡ false
unfolding has_data
no_data = refl

known : find_by_ssrc others here.send_ssrc ≡ some 0
unfolding find_by_ssrc find find_item
known = refl

abbrev flags : MidiPayload.Header
flags = record { b = false; j = false; z = false; p = false; len = 3 }

abbrev note_bytes : List ℕ
note_bytes = 0x90 ∷ 60 ∷ 64 ∷ []

read_rtp-send_to_example :
    (packet : List ℕ) × (n : ℕ) × (send_to surroundings false
        (with_bytes flags note_bytes)
        no_entry
        here
      ≡ done (send (increment_seq here) packet n false, increment_seq here))
    × Returns (read_rtp fresh_state others (some packet) n) (
        Delivered
          (header_of surroundings here)
          (Parser.run true false (view fresh_state) note_bytes).1)
read_rtp-send_to_example =
    read_rtp-send_to surroundings flags note_bytes no_entry here fresh_state others 0 there
      fresh_state no_data (omega arith) refl (omega arith) (omega arith) known refl refl
      fresh_state-CanTake

-- A header and no more, from the connection's SSRC.
abbrev bare : RtpPacket.Header
bare = record { v = 2; p = 0; x = 0; cc = 0; m = 0; pt = 97; seq = 5; timestamp = 0; ssrc = 8 }

bare-Fits : Fits bare
bare-Fits = record {
  v_fits = omega arith;
  p_fits = omega arith;
  x_fits = omega arith;
  cc_fits = omega arith;
  m_fits = omega arith;
  pt_fits = omega arith;
  seq_fits = omega arith;
  timestamp_fits = omega arith;
  ssrc_fits = omega arith;
}

read_rtp_empty_example : read_rtp fresh_state others (some (header_bytes bare ++ [])) 12 ≡ fault
read_rtp_empty_example = read_rtp_empty fresh_state others bare 0 there bare-Fits refl known refl
