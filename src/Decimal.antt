-- ===== src/Decimal.antt =====
-- Python's `decimal.Decimal` under the default context, as far as the program uses it: 28
-- significant digits, rounding half to even, the signals DivisionByZero and InvalidOperation
-- raised. A number is a signed coefficient over a power of ten. A positive exponent is
-- multiplied into the coefficient, which keeps the value. NaN, infinities, signed zeros and
-- the exponent limits of the context do not arise from the program's inputs and are left out.
mod Defs
mod Order
mod Rounding
mod Quantize
mod Sign
unfoldable pub use Defs.*
pub use Order.*
pub use Rounding.*
pub use Quantize.*
pub use Sign.*
