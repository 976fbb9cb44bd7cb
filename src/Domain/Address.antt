-- ===== src/Domain/Address.antt =====
-- normalizeAddress of src/domain/member.js, and its laws.
mod Defs
mod Laws
unfoldable pub use Defs.{
  is_space, lower, trim_start, trim_end, trim, last_index_of, normalize_address,
}
pub use Laws.*
