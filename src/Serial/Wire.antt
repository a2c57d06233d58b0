-- ===== src/Serial/Wire.antt =====
-- src/serial_interface.cpp: open_port, close_port, write_bytes, wait_for_response and flush_buffer.
-- A loop takes fuel; the failure out_of_fuel stands for a loop that has not ended by then.
use p2000t_cartridge_studio.Base.Int.{pos, sub_ℕ, min_ℕ}
use p2000t_cartridge_studio.Bytes.{Bytes, is_empty}
use p2000t_cartridge_studio.Text.{codes}
use p2000t_cartridge_studio.Effects.{ok, pure, throw, ◌>>=◌, ◌>>◌, gets, modify, guard}
use p2000t_cartridge_studio.Transport.{SerialTransport}
use p2000t_cartridge_studio.Serial.{
  SerialInterface, Method, no_port, open_failed, write_failed, queue_timed_out,
  transmission_timed_out, response_timed_out, out_of_fuel,
}
use p2000t_cartridge_studio.Base.{
  ℕ, zero, suc, ◌-◌, Bool, true, false, not, ◌&&◌, Option, none, some, [], ◌∷◌, ◌++◌, ltb, leb,
  ◌==◌, if◌then◌else◌, length, take, drop,
}

module _ (T : SerialTransport) where
  open T use {State, clock}

  -- A call on the transport that may change it.
  abbrev pub on_link : {A : Type 0} → (State → A × State) → Method T A
  on_link f s = let (a, link) = f s.link in (ok a, record s { link = link })

  abbrev pub change_link : (State → State) → Method T (Unit {0})
  change_link f s = (ok tt, record s { link = f s.link })

  -- `timer.elapsed()` of a timer started at clock reading `start`.
  abbrev pub elapsed : ℕ → Method T ℕ
  elapsed start = do now ← on_link clock; pure (now - start)

  -- `this->port && this->port->isOpen()`
  abbrev pub port_is_open : SerialInterface T → Bool
  port_is_open s = s.port && T.is_open s.link

  -- The rest of open_port, once the port is known to be closed.
  unfoldable pub connect_port : Method T (Unit {0})
  connect_port = do
    name ← gets (λ s. s.portname)
    created ← on_link (T.create name)
    modify (λ s. record s { port = created })
    opened ← if created then on_link T.opens else pure false
    detail ← gets (λ s. if s.port then T.error_string s.link else codes "transport was not created")
    guard opened (open_failed detail)
    change_link (T.set_data_terminal_ready true)

  unfoldable pub open_port : Method T (Unit {0})
  unfolding connect_port
  open_port = do
    empty ← gets (λ s. is_empty s.portname)
    guard (not empty) no_port
    already ← gets port_is_open
    if already then pure tt else connect_port

  unfoldable pub close_port : SerialInterface T → SerialInterface T
  close_port s = record s {
    port = false;
    receive_buffer = [];
    link = if port_is_open s then T.close (T.set_data_terminal_ready false s.link) else s.link;
  }

  -- `if(written < 0) throw …`
  unfoldable pub accepted : Option ℕ → Method T ℕ
  accepted (some n) = pure n
  accepted none = do detail ← gets (λ s. T.error_string s.link); throw (write_failed detail)

  -- `!this->port->waitForBytesWritten(25) && timer.elapsed() >= timeout_ms`
  unfoldable pub stalls : ℕ → ℕ → Method T Bool
  stalls start timeout_ms = do
    progress ← on_link (T.wait_for_bytes_written (pos 25))
    if progress then pure false else (do t ← elapsed start; pure (leb timeout_ms t))

  -- The first loop of write_bytes, which hands `rest` to the driver.
  unfoldable pub queue_bytes : ℕ → ℕ → ℕ → Bytes → Method T (Unit {0})
  unfolding accepted stalls
  queue_bytes zero start timeout_ms rest = throw out_of_fuel
  queue_bytes (suc fuel) start timeout_ms [] = pure tt
  queue_bytes (suc fuel) start timeout_ms (b ∷ rest) = do
    taken ← on_link (T.write (b ∷ rest))
    written ← accepted taken
    stalled ← if written == 0 then stalls start timeout_ms else pure false
    guard (not stalled) queue_timed_out
    queue_bytes fuel start timeout_ms (drop written (b ∷ rest))

  -- The second loop, which waits until the driver has sent all.
  unfoldable pub drain_bytes : ℕ → ℕ → ℕ → Method T (Unit {0})
  drain_bytes zero start timeout_ms = throw out_of_fuel
  drain_bytes (suc fuel) start timeout_ms = do
    pending ← gets (λ s. T.bytes_to_write s.link)
    if pending == 0 then pure tt else (do
      t ← elapsed start
      progress ←
          if leb timeout_ms t
          then pure false
          else on_link (T.wait_for_bytes_written (min_ℕ (sub_ℕ timeout_ms t) 25))
      late ← if progress then pure false else (do t' ← elapsed start; pure (leb timeout_ms t'))
      guard (not late) transmission_timed_out
      drain_bytes fuel start timeout_ms)

  unfoldable pub write_bytes : ℕ → Bytes → ℕ → Method T (Unit {0})
  write_bytes fuel content timeout_ms = do
    start ← on_link clock
    queue_bytes fuel start timeout_ms content
    drain_bytes fuel start timeout_ms

  -- `this->receive_buffer += this->port->readAll();`
  unfoldable pub receive : Method T (Unit {0})
  receive = do
    arrived ← on_link T.read_all
    modify (λ s. record s { receive_buffer = s.receive_buffer ++ arrived })

  -- The loop of wait_for_response.
  unfoldable pub gather : ℕ → ℕ → ℕ → ℕ → Method T (Unit {0})
  gather zero start size timeout_ms = throw out_of_fuel
  gather (suc fuel) start size timeout_ms = do
    held ← gets (λ s. length s.receive_buffer)
    if leb size held then pure tt else (do
      t ← elapsed start
      if leb timeout_ms t then pure tt else (do
        receive
        now_held ← gets (λ s. length s.receive_buffer)
        if leb size now_held then pure tt else (do
          t' ← elapsed start
          _ ← on_link (T.wait_for_ready_read (min_ℕ (sub_ℕ timeout_ms t') 25))
          gather fuel start size timeout_ms)))

  unfoldable pub wait_for_response : ℕ → ℕ → ℕ → Method T Bytes
  wait_for_response fuel size timeout_ms = do
    start ← on_link clock
    gather fuel start size timeout_ms
    held ← gets (λ s. length s.receive_buffer)
    if ltb held size then receive else pure tt
    got ← gets (λ s. length s.receive_buffer)
    guard (leb size got) (response_timed_out got size)
    response ← gets (λ s. take size s.receive_buffer)
    modify (λ s. record s { receive_buffer = drop size s.receive_buffer })
    pure response

  -- The loop of flush_buffer; what arrives is dropped.
  unfoldable pub discard_arrivals : ℕ → Method T (Unit {0})
  discard_arrivals zero = throw out_of_fuel
  discard_arrivals (suc fuel) = do
    more ← on_link (T.wait_for_ready_read (pos 10))
    if more then (do _ ← on_link T.read_all; discard_arrivals fuel) else pure tt

  unfoldable pub flush_buffer : ℕ → Method T (Unit {0})
  flush_buffer fuel = do
    usable ← gets port_is_open
    if not usable then pure tt else (do
      modify (λ s. record s { receive_buffer = [] })
      _ ← on_link T.read_all
      discard_arrivals fuel)
