-- ===== src/Ports.antt =====
-- ports.c: an input and output port, with the functions of the hardware that is connected to it.
pub mod Pins
use oseid_simulavr.Base.{
  ℕ, Bool, true, false, Option, none, some, ◌==◌, if◌then◌else◌, bit_and, complement,
}
use oseid_simulavr.Exec.{Exec, pure, stop, gets, modify, ◌>>=◌, ◌>>◌}
use oseid_simulavr.Board.{zoom}

pub record Port (S : Type 0) : Type 0 where
  pub port_addr : ℕ
  pub ddr_addr : ℕ
  pub pin_addr : ℕ
  pub port : ℕ
  pub ddr : ℕ
  pub pin : ℕ
  pub ext_enable : Bool
  pub ext_rd : Option (ℕ → Exec S ℕ)
  pub ext_wr : Option (ℕ → ℕ → Exec S Unit)

-- A port and the state of the hardware at it.
pub record Wired (S : Type 0) : Type 0 where
  pub p : Port S
  pub hardware : S

module _ {S A : Type 0} where
  abbrev pub on_port : Exec (Port S) A → Exec (Wired S) A
  on_port m = zoom (λ t w. record w { p = t }) (λ w. w.p) m

  abbrev pub on_hardware : Exec S A → Exec (Wired S) A
  on_hardware m = zoom (λ t w. record w { hardware = t }) (λ w. w.hardware) m

module _ {S : Type 0} where
  unfoldable pub port_reset : Exec (Port S) Unit
  port_reset = modify (λ p. record p { port = 0; ddr = 0; pin = 0; ext_enable = true })

  unfoldable pub port_ext_disable : Exec (Port S) Unit
  port_ext_disable = modify (λ p. record p { ext_enable = false })

  unfoldable pub port_ext_enable : Exec (Port S) Unit
  port_ext_enable = modify (λ p. record p { ext_enable = true })

  unfoldable pub port_add_ext_rd_wr :
      Option (ℕ → Exec S ℕ) → Option (ℕ → ℕ → Exec S Unit) → Exec (Port S) Unit
  port_add_ext_rd_wr ext_rd ext_wr = modify (λ p. record p { ext_rd = ext_rd; ext_wr = ext_wr })

  -- What the hardware supplies, if it is connected.
  abbrev pub supplied : Option (ℕ → Exec S ℕ) → Bool → ℕ → Exec S ℕ
  supplied none enable addr = pure 0
  supplied (some ext_rd) enable addr = if enable then ext_rd addr else pure 0

  unfoldable pub port_read_pin : ℕ → Exec (Wired S) ℕ
  port_read_pin addr = do
    p ← gets (λ w. w.p)
    data_ ← on_hardware (supplied p.ext_rd p.ext_enable addr)
    pure (bit_and data_ (complement p.ddr))

  abbrev pub notified : Option (ℕ → ℕ → Exec S Unit) → Bool → ℕ → ℕ → Exec S Unit
  notified none enable addr val = pure tt
  notified (some ext_wr) enable addr val = if enable then ext_wr addr val else pure tt

  unfoldable pub port_write_port : ℕ → ℕ → Exec (Wired S) Unit
  port_write_port addr val = do
    on_port (modify (λ p. record p { port = val }))
    p ← gets (λ w. w.p)
    on_hardware (notified p.ext_wr p.ext_enable addr (bit_and p.port p.ddr))

  unfoldable pub port_write_ddr : ℕ → Exec (Port S) Unit
  port_write_ddr val = modify (λ p. record p { ddr = val })

  unfoldable pub port_reg_read : ℕ → Exec (Wired S) ℕ
  unfolding port_read_pin
  port_reg_read addr = do
    p ← gets (λ w. w.p)
    if addr == p.ddr_addr
        then pure p.ddr
        else if addr == p.pin_addr
        then port_read_pin addr
        else if addr == p.port_addr
        then pure p.port
        else stop

  -- A write to PIN only gives a warning.
  unfoldable pub port_reg_write : ℕ → ℕ → Exec (Wired S) Unit
  unfolding port_write_port port_write_ddr
  port_reg_write addr val = do
    p ← gets (λ w. w.p)
    if addr == p.pin_addr
        then pure tt
        else if addr == p.ddr_addr
        then on_port (port_write_ddr val)
        else if addr == p.port_addr
        then port_write_port addr val
        else stop
