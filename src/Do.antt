-- ===== src/Do.antt =====
-- The Durable Objects of src/do: one serialized store for each key. A method is a function of the
-- clock's reading and the stored keys, and returns its result with the keys afterwards; the input
-- gate runs the methods of one object one after another, so a history is a list of calls.
pub mod RateLimit
pub mod OneTime
pub mod AuthorizationCode
pub mod RefreshFamily
