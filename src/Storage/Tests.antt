-- ===== src/Storage/Tests.antt =====
-- The browser's store over a map from keys to texts.
use lustro_node_agent.Base.{
  String, ◌≡◌, refl, true, Option, none, some, if◌then◌else◌, eq_iff, str_eq,
}
use lustro_node_agent.Base.Text.{Text}
use lustro_node_agent.Storage.{ObjectStore}
use lustro_node_agent.Storage.Laws.{StoreLaws}

abbrev Contents : Type 0
Contents = String → Option Text

abbrev objects : ObjectStore Contents
objects = record {
  idb_get = λ s k. s k;
  idb_set = λ s k t j. if str_eq k j then some t else s j;
  idb_clear = λ s k. none;
}

abbrev empty : Contents
empty k = none

objects-laws : StoreLaws objects
objects-laws = record {
  get_set = λ s k t key. let same : str_eq k k ≡ true = (eq_iff k k).1 refl in rw same refl;
  get_set_other = λ s t. refl;
  get_clear = λ s k key. refl;
}
