-- ===== src/Iterable.antt =====
-- What the constructors of the collections are given, by the engine.
use pecl_teds.Base.{List}

-- What the engine gives for an iterable object: an exception before the first value, or the values
-- up to the end or to an exception.
pub data Traversal (A : Type 0) : Type 0 where
  failed : Traversal A
  values : List A → Traversal A

-- What __construct is given.
pub data Iterable (A : Type 0) : Type 0 where
  array : List A → Iterable A
  object : Traversal A → Iterable A
