-- ===== src/Classifier.antt =====
-- node_agent/classifier.py.
pub mod Model
pub mod Features
use lustro_node_agent.Base.{Option}
use lustro_node_agent.Base.Text.{Text, text}
use lustro_node_agent.Base.Result.{Result, ok}
use lustro_node_agent.Client.{Classification}

-- `StubClassifier()`. A score is named by the number of the float; 0 is 0.0.
unfoldable pub stub_classify : Text → Option Text → Result Classification
stub_classify content lang = ok (record { label = text "factual"; score = 0 })
