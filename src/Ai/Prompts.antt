-- ===== src/Ai/Prompts.antt =====
-- The texts of packages/ai-service/src/prompts/index.ts. How JavaScript prints numbers and
-- identifiers is a parameter.
use Prim.Native.String.{◌++◌ as ◌<>◌}
use banking_platform.Base.{ℕ, String, Option, none, some}
use banking_platform.Base.Int.{ℤ}
use banking_platform.Shared.Events.{TransactionType, deposit, withdrawal, transfer}

pub record Printing : Type 0 where
  pub amount : ℤ → String
  -- `toFixed(2)`
  pub fixed : ℤ → String
  pub id : ℕ → String
  pub count : ℕ → String

abbrev pub type_label : TransactionType → String
type_label deposit = "depósito"
type_label withdrawal = "retiro"
type_label transfer = "transferencia"

abbrev pub type_name : TransactionType → String
type_name deposit = "deposit"
type_name withdrawal = "withdrawal"
type_name transfer = "transfer"

-- The data comes printed as JSON.
unfoldable pub translate_event : String → String → String
translate_event event_subject event_data =
    "Traduce este evento técnico bancario a un mensaje amigable para el usuario final.\nEvento: "
    <> event_subject <> "\nDatos: " <> event_data <> "\nGenera un mensaje breve y claro en español."

module _ (p : Printing) where
  abbrev pub id_or_na : Option ℕ → String
  id_or_na none = "N/A"
  id_or_na (some id) = p.id id

  -- A line that is empty without its value.
  abbrev pub optional_line : String → Option String → String
  optional_line label none = ""
  optional_line label (some s) = label <> s

  unfoldable pub explain_completed :
      TransactionType → ℤ → String → Option ℕ → Option ℕ → Option String → String
  explain_completed type amount currency source target description =
      "Explica esta operación bancaria completada al usuario de forma clara y amigable:\n- Tipo: "
      <> type_label type
      <> "\n- Monto: "
      <> p.amount amount
      <> " "
      <> currency
      <> "\n- Cuenta origen: "
      <> id_or_na source
      <> "\n- Cuenta destino: "
      <> id_or_na target
      <> "\n"
      <> optional_line "- Descripción: " description
      <> "\nEstado: completada exitosamente"

  unfoldable pub explain_rejected : TransactionType → ℤ → String → String → String
  explain_rejected type amount currency reason =
      "Explica al usuario por qué esta operación fue rechazada:\n- Tipo: "
      <> type_label type
      <> "\n- Monto: "
      <> p.amount amount
      <> " "
      <> currency
      <> "\n- Motivo técnico: "
      <> reason
      <> "\nGenera un mensaje claro y empático en español."

  unfoldable pub summarize_account : ℕ → ℤ → ℤ → ℤ → ℤ → ℕ → ℕ → String
  summarize_account account_id deposits withdrawals sent received transactions rejected =
      "Resume el historial de transacciones de la cuenta "
      <> p.id account_id
      <> ":\n- Total de transacciones: "
      <> p.count transactions
      <> "\n- Depósitos completados: "
      <> p.fixed deposits
      <> "\n- Retiros completados: "
      <> p.fixed withdrawals
      <> "\n- Transferencias enviadas: "
      <> p.fixed sent
      <> "\n- Transferencias recibidas: "
      <> p.fixed received
      <> "\n- Transacciones rechazadas: "
      <> p.count rejected
      <> "\nGenera un resumen breve y amigable en español."

  abbrev pub balance_line : String → Option ℤ → String
  balance_line currency none = ""
  balance_line currency (some b) = "- Saldo disponible: " <> p.amount b <> " " <> currency

  abbrev pub recent_line : Option ℕ → String
  recent_line none = ""
  recent_line (some n) = "- Transacciones recientes (24h): " <> p.count n

  unfoldable pub analyze_risk :
      String → ℤ → String → Option ℕ → Option ℕ → Option ℤ → Option ℕ → Option String → String
  analyze_risk type amount currency source target balance recent description =
      "Analiza el riesgo de esta transacción bancaria y responde en JSON con el siguiente formato exacto:\n{\"riskLevel\":\"low\"|\"medium\"|\"high\",\"score\":0-100,\"reasons\":[\"...\"],\"recommendation\":\"...\"}\n\nTransacción:\n- Tipo: "
      <> type
      <> "\n- Monto: "
      <> p.amount amount
      <> " "
      <> currency
      <> "\n- Cuenta origen: "
      <> id_or_na source
      <> "\n- Cuenta destino: "
      <> id_or_na target
      <> "\n"
      <> balance_line currency balance
      <> "\n"
      <> recent_line recent
      <> "\n"
      <> optional_line "- Descripción: " description
      <> "\n\nConsidera: monto inusual, frecuencia, proporción respecto al saldo, patrones de fraude comunes."
