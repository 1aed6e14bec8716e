-- ===== src/Ports/Pins.antt =====
-- The pins of a port: which bits the hardware sees, and which it supplies.
use oseid_simulavr.Base.{
  ℕ, ◌<◌, ◌≡◌, ◌≢◌, refl, arith, true, false, some, List, ◌∷◌, ◌==◌, if◌then◌else◌, bit_and,
  complement,
}
use oseid_simulavr.Exec.{ok, Exec, gets, modify, ◌>>◌}
use oseid_simulavr.Exec.Returns.{Returns, Returns-ok}
use oseid_simulavr.Bits.{digit, digit-lt, digit-bit_and, digit-complement_byte}
use package.oseid_simulavr.Ports.{
  Wired, port_reg_read, port_reg_write, port_read_pin, port_write_port, port_write_ddr,
}

-- Hardware that keeps the values that it is shown and supplies always the same value.
pub record Probe : Type 0 where
  pub shown : List ℕ
  pub supply : ℕ

abbrev pub probe_rd : ℕ → Exec Probe ℕ
probe_rd addr = gets (λ h. h.supply)

abbrev pub probe_wr : ℕ → ℕ → Exec Probe Unit
probe_wr addr val = modify (λ h. record h { shown = val ∷ h.shown })

-- The port is connected to a probe, and its three registers have different addresses.
pub record IsProbed (w : Wired Probe) : Type 0 where
  pub reads : w.p.ext_rd ≡ some probe_rd
  pub writes : w.p.ext_wr ≡ some probe_wr
  pub enabled : w.p.ext_enable ≡ true
  pub pin_ddr : w.p.pin_addr ≢ w.p.ddr_addr
  pub pin_port : w.p.pin_addr ≢ w.p.port_addr
  pub ddr_port : w.p.ddr_addr ≢ w.p.port_addr

-- The direction, the output and a read of the pins.
abbrev pub drive : Wired Probe → ℕ → ℕ → Exec (Wired Probe) ℕ
drive w dir val = do
  port_reg_write w.p.ddr_addr dir
  port_reg_write w.p.port_addr val
  port_reg_read w.p.pin_addr

drive_lem :
    (dir val : ℕ) (w : Wired Probe)
    → IsProbed w
    → drive w dir val w
      ≡ ok (
        bit_and w.hardware.supply (complement dir),
        record w {
          p = record w.p { ddr = dir; port = val };
          hardware = record w.hardware { shown = bit_and val dir ∷ w.hardware.shown };
        },
      )
unfolding port_reg_write port_reg_read port_read_pin port_write_port port_write_ddr
drive_lem dir val w c =
    let a : (w.p.ddr_addr == w.p.pin_addr) ≡ false = ground (arith, c.pin_ddr) in
    let b : (w.p.port_addr == w.p.pin_addr) ≡ false = ground (arith, c.pin_port) in
    let d : (w.p.port_addr == w.p.ddr_addr) ≡ false = ground (arith, c.ddr_port) in
    let e : (w.p.pin_addr == w.p.ddr_addr) ≡ false = ground (arith, c.pin_ddr) in
    let same : (n : ℕ) → (n == n) ≡ true = λ n. ground arith in
    rw
      (
        a,
        same w.p.ddr_addr,
        b,
        d,
        same w.p.port_addr,
        c.writes,
        c.enabled,
        e,
        same w.p.pin_addr,
        c.reads,
      )
      refl

-- At a port with three different registers and connected hardware, a write of the direction and of
-- the output shows the hardware the output on exactly the pins whose direction bit is set, and 0 on
-- the others; PIN then reads what the hardware supplies on exactly the other pins, and 0 on those.
pub port_reg_read-port_reg_write :
    (dir val : ℕ) (w : Wired Probe)
    → IsProbed w
    → dir < 256
    → Returns (drive w dir val w) (λ r.
      (r.1.hardware.shown ≡ bit_and val dir ∷ w.hardware.shown)
      × ((j : ℕ)
          → j < 8
          → digit (bit_and val dir) j ≡ (if digit dir j == 1 then digit val j else 0))
      × ((j : ℕ)
          → j < 8
          → digit r.0 j ≡ (if digit dir j == 1 then 0 else digit w.hardware.supply j)))
port_reg_read-port_reg_write dir val w c h =
    let driven : (j : ℕ)
        → j < 8
        → digit (bit_and val dir) j ≡ (if digit dir j == 1 then digit val j else 0) =
      λ j hj. ground (arith, digit-bit_and j val dir, digit-lt j val, digit-lt j dir) in
    let taken : (j : ℕ)
        → j < 8
        → digit (bit_and w.hardware.supply (complement dir)) j
          ≡ (if digit dir j == 1 then 0 else digit w.hardware.supply j) =
      λ j hj. ground (
        arith,
        digit-bit_and j w.hardware.supply (complement dir),
        digit-complement_byte dir j h hj,
        digit-lt j w.hardware.supply,
        digit-lt j dir,
      ) in
    Returns-ok (drive w dir val w) _ _ (drive_lem dir val w c) (refl, driven, taken)
