-- ===== src/Upload/Address.antt =====
-- The packed form of an address.
use wtsl_app.Base.{ℕ, ◌+◌, ◌*◌, ◌/◌, ◌%◌, ◌^◌, ◌<◌, ◌≡◌, arith}
use wtsl_app.Base.Bits.{bit_and-mask, bit_or-shifted}
use wtsl_app.Upload.{Address32Bit, address_to_little_endian}

-- Each field fits its bits.
pub record IsAddress (a : Address32Bit) : Type 0 where
  pub reserved_fits : a.reserved < 4
  pub subnet_fits : a.subnet_id < 2 ^ 14
  pub t_node_fits : a.t_node_id < 256
  pub device_fits : a.device_id < 256

-- The fields of a packed address.
pub unpack_address : ℕ → Address32Bit
unpack_address v = record {
  reserved = v / 2 ^ 30;
  subnet_id = v / 2 ^ 16 % 2 ^ 14;
  t_node_id = v / 2 ^ 8 % 2 ^ 8;
  device_id = v % 2 ^ 8;
}

packed_sum :
    (a : Address32Bit)
    → address_to_little_endian a
      ≡ a.device_id % 256
        + a.t_node_id % 256 * 2 ^ 8
        + a.subnet_id % 2 ^ 14 * 2 ^ 16
        + a.reserved % 4 * 2 ^ 30
unfolding address_to_little_endian
packed_sum a = rw (
  bit_and-mask 8 a.device_id,
  bit_and-mask 8 a.t_node_id,
  bit_and-mask 14 a.subnet_id,
  bit_and-mask 2 a.reserved,
  bit_or-shifted 8 (a.device_id % 256) (a.t_node_id % 256) (omega arith),
  bit_or-shifted 16 (a.device_id % 256 + a.t_node_id % 256 * 2 ^ 8) (a.subnet_id % 2 ^ 14)
      (omega arith),
  bit_or-shifted 30 (a.device_id % 256 + a.t_node_id % 256 * 2 ^ 8 + a.subnet_id % 2 ^ 14 * 2 ^ 16)
      (a.reserved % 4) (omega arith),
)

-- A packed address has 32 bits.
pub address-lt : (a : Address32Bit) → address_to_little_endian a < 2 ^ 32
address-lt a = omega (arith, packed_sum a)

-- Every address whose fields fit is recovered from its packed form.
pub unpack-address :
    (a : Address32Bit) → IsAddress a → unpack_address (address_to_little_endian a) ≡ a
unfolding unpack_address
unpack-address a h = ground (arith, packed_sum a)
