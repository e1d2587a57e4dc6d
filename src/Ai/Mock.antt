-- ===== src/Ai/Mock.antt =====
-- `MockLLMProvider` (packages/ai-service/src/providers/llm.provider.ts): a fixed answer by the words of
-- the prompt. The answer to a prompt about risk, which reads numbers with a fraction, is a parameter.
use banking_platform.Base.{String, Bool, ◌&&◌, ◌||◌, if◌then◌else◌}
use banking_platform.Base.Texts.{starts_with}

-- `s.includes(part)`.
abbrev pub has : String → String → Bool
has String.[] part = starts_with String.[] part
has (String.◌∷◌ c s) part = starts_with (String.◌∷◌ c s) part || has s part

abbrev pub asks_for_risk : String → Bool
asks_for_risk prompt =
    has prompt "riskLevel" || has prompt "analyzeRisk" || has prompt "Analiza el riesgo"

abbrev pub is_completed : String → Bool
is_completed prompt = has prompt "completada" || has prompt "completed"

abbrev pub default_answer : String
default_answer =
    "La operación ha sido procesada correctamente. Si tienes alguna duda, no dudes en contactar a soporte."

-- The answers to the other prompts.
abbrev pub fixed_answer : String → String
fixed_answer prompt =
    if has prompt "rejected" && has prompt "Insufficient funds"
    then "La transferencia fue rechazada porque el saldo disponible en la cuenta de origen era insuficiente para cubrir el monto solicitado. Te recomendamos verificar tu saldo antes de realizar nuevas operaciones."
    else if has prompt "rejected"
    then "La transacción no pudo ser procesada. Esto puede deberse a fondos insuficientes, una cuenta inexistente o un error temporal del sistema. Por favor, verifica los datos e intenta nuevamente."
    else if (has prompt "depósito" || has prompt "deposit") && is_completed prompt
    then "Se realizó un depósito exitoso en tu cuenta. El monto ha sido acreditado y ya se refleja en tu saldo disponible."
    else if (has prompt "retiro" || has prompt "withdrawal") && is_completed prompt
    then "Se procesó un retiro de tu cuenta exitosamente. El monto fue debitado de tu saldo disponible."
    else if (has prompt "transferencia" || has prompt "transfer") && is_completed prompt
    then "La transferencia se completó exitosamente. El monto fue debitado de la cuenta de origen y acreditado en la cuenta de destino."
    else if has prompt "Resume el historial" || has prompt "historial"
    then "Resumen de movimientos: Tu cuenta muestra actividad reciente incluyendo depósitos y transferencias. El saldo refleja todas las operaciones completadas. Para más detalles, consulta el historial completo de transacciones."
    else default_answer

-- `MockLLMProvider.explain`.
unfoldable pub explain_mock : (risk_answer : String → String) → String → String
explain_mock risk_answer prompt =
    if asks_for_risk prompt then risk_answer prompt else fixed_answer prompt
